-- ===== src/Array/Search/Reject.antt =====
-- fth_array_reject takes out the elements that its procedure asks for, but looks at no array of
-- fewer than two.
use fth.Base.{
  ℕ, suc, ◌+◌, ◌-◌, ◌<◌, ◌≡◌, refl, sym, ap, ◌∙◌, ◌⊎◌, inl, inr, Bool, true, false, Bool-cases,
  List, [], ◌∷◌, ◌++◌, arith, ok, some, ltb, ltb→lt, ltb_false→le, length, length-append, pos,
}
use mathlib.Core.Path.{subst}
use mathlib.Core.List.{append_assoc}
use fth.Memory.Slice.{slice_split, slice_uncons, length-slice}
use fth.Memory.Writes.{load-in}
use fth.Array.{FArray, view}
use fth.Array.Valid.{IsValid, Yields}
use fth.Array.Edit.{element_of, array_delete}
use fth.Array.Edit.Delete.{array_delete-Yields}
use fth.Array.Search.{reject_from, array_reject}
use fth.Array.Search.Find.{pos_position}
use fth.Array.Search.Keep.{without}

module _ {ℓ} {A : Type ℓ} (false_object : A) (fresh : ℕ → A) (test : A → Bool) where
  stay_step :
      (a : FArray A) (i n : ℕ) (x : A)
      → element_of a i ≡ some x
      → test x ≡ false
      → reject_from false_object fresh test i (suc n) a
        ≡ reject_from false_object fresh test (suc i) n a
  unfolding reject_from
  stay_step a i n x e f = rw (e, f, reject_from)

  gone_step :
      (a : FArray A) (i n : ℕ) (x : A)
      → element_of a i ≡ some x
      → test x ≡ true
      → (array_delete false_object fresh (pos i) a).0 ≡ ok x
      → reject_from false_object fresh test i (suc n) a
        ≡ reject_from false_object fresh test i n (array_delete false_object fresh (pos i) a).1
  unfolding reject_from
  gone_step a i n x e t d = rw (e, t, d, reject_from)

  element_at :
      (a : FArray A) (ys zs : List A) (x : A)
      → IsValid a
      → view a ≡ ys ++ x ∷ zs
      → (element_of a (length ys) ≡ some x) × (length ys < a.length)
  element_at a ys zs x v e =
      let (_, here, size) = slice_split a.buf.cell a.data_offset a.length ys (x ∷ zs) e in
      let (first, _, _) =
        slice_uncons a.buf.cell (a.data_offset + length ys) (a.length - length ys) x zs here in
      (
        load-in a.buf (a.data_offset + length ys) (omega (arith, size)) ∙ ap some first,
        omega (arith, size),
      )

  finished : (a : FArray A) (i : ℕ) → reject_from false_object fresh test i 0 a ≡ (ok tt, a)
  unfolding reject_from
  finished a i = refl

  reject_from-Yields :
      (ys zs : List A) (a : FArray A)
      → IsValid a
      → view a ≡ ys ++ zs
      → Yields
          (reject_from false_object fresh test (length ys) (length zs) a)
          tt
          (ys ++ without test zs)
  reject_from-Yields ys [] a v e =
      subst (λ r. Yields r tt (ys ++ [])) (sym (finished a (length ys)))
        (record { returns = refl; valid = v; holds = e })
  reject_from-Yields ys (x ∷ zs) a v e =
      let (here, lt) = element_at a ys zs x v e in
      elim (Bool-cases (test x)) [
        | inl t ↦
            let d =
              array_delete-Yields false_object fresh (pos (length ys)) a ys zs x v e
                (pos_position (length ys) (length ys) a.length refl lt) in
            rw t (
              subst (λ r. Yields r tt (ys ++ without test zs))
                (sym (gone_step a (length ys) (length zs) x here t d.returns))
                (reject_from-Yields ys zs (array_delete false_object fresh (pos (length ys)) a).1
                  d.valid d.holds))
        | inr f ↦
            let more : length (ys ++ x ∷ []) ≡ suc (length ys) =
              omega (arith, length-append ys (x ∷ [])) in
            let rest =
              reject_from-Yields (ys ++ x ∷ []) zs a v (e ∙ sym (append_assoc ys (x ∷ []) zs)) in
            rw f (
              subst (λ r. Yields r tt (ys ++ x ∷ without test zs))
                (sym (stay_step a (length ys) (length zs) x here f))
                (subst
                  (λ i.
                    Yields (reject_from false_object fresh test i (length zs) a) tt
                      (ys ++ x ∷ without test zs))
                  more
                  (subst
                    (λ l.
                      Yields
                        (reject_from false_object fresh test (length (ys ++ x ∷ [])) (length zs) a)
                        tt l)
                    (append_assoc ys (x ∷ []) (without test zs)) rest)))
      ]

  -- `array_reject` of a valid array of at least two elements takes out exactly those that the procedure
  -- asks for and keeps the others in order; an array of fewer it leaves as it was, whatever the
  -- procedure says.
  pub array_reject-Yields :
      (a : FArray A)
      → IsValid a
      → ((1 < a.length)
          × Yields (array_reject false_object fresh test a) tt (without test (view a)))
        ⊎ ((a.length < 2) × (array_reject false_object fresh test a ≡ (ok tt, a)))
  unfolding array_reject
  array_reject-Yields a v = elim (Bool-cases (ltb a.length 2)) [
    | inl few ↦ inr (ltb→lt _ _ few, rw (few, array_reject))
    | inr many ↦ inl (
      ltb_false→le _ _ many,
      rw (many, array_reject)
          (subst
            (λ n. Yields (reject_from false_object fresh test 0 n a) tt (without test (view a)))
            (length-slice a.buf.cell a.data_offset a.length)
            (reject_from-Yields [] (view a) a v refl)),
    )
  ]
