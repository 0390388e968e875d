-- ===== src/Array/Edit/Itself.antt =====
-- fth_array_insert of an array into itself at the first position: the loop reads from the array
-- that it shifts.
use fth.Base.{
  ℕ, zero, suc, ◌+◌, ◌-◌, ◌<◌, ◌≡◌, ◌≢◌, refl, sym, ap, ◌∙◌, ◌⊎◌, inl, inr, List, ◌∷◌, ◌++◌, arith,
  ok, some, throw, out_of_range, length,
}
use mathlib.Core.Path.{subst}
use fth.Memory.Slice.{slice, length-slice, slice_uncons}
use fth.Memory.Writes.{load-in}
use fth.Array.{FArray, Method, view}
use fth.Array.Valid.{IsValid}
use fth.Array.Ends.{array_unshift}
use fth.Array.Ends.Unshift.{array_unshift-Yields}
use fth.Array.Edit.{itself, element_of, unshift_each, insert_front}
use fth.Array.Edit.Front.{step_ok, step_throw, done}

module _ {ℓ} {A : Type ℓ} where
  -- The run was stopped by OUT-OF-RANGE, or it left an array whose first two elements are the same.
  abbrev Doubles : Method A (Unit {0}) → Type ℓ
  Doubles r =
      (r.0 ≡ throw out_of_range)
      ⊎ ((c : A) × (ys : List A) × (r.0 ≡ ok tt) × (view r.1 ≡ c ∷ c ∷ ys))

  view_head :
      (a : FArray A) → 0 < a.length → (xs : List A) × (view a ≡ a.buf.cell (a.data_offset + 0) ∷ xs)
  view_head a h =
      let e : a.length ≡ suc (a.length - 1) = omega arith in
      (
        slice a.buf.cell (suc a.data_offset) (a.length - 1),
        ap (slice a.buf.cell a.data_offset) e
            ∙ ap (λ k. a.buf.cell k ∷ slice a.buf.cell (suc a.data_offset) (a.length - 1))
                (omega arith),
      )

  here :
      (a : FArray A) (n : ℕ)
      → IsValid a
      → n < a.length
      → element_of a n ≡ some (a.buf.cell (a.data_offset + n))
  here a n v lt = load-in a.buf (a.data_offset + n) (omega arith)

  -- The last round puts the first element before itself.
  last_round :
      (fresh : ℕ → A) (a b : FArray A)
      → 0 < a.length
      → view b ≡ a.buf.cell (a.data_offset + 0) ∷ view a
      → Doubles (unshift_each element_of fresh 0 b)
  last_round fresh a b lt e =
      let (xs, h) = view_head a lt in
      let c = a.buf.cell (a.data_offset + 0) in
      subst Doubles (sym (done element_of fresh b)) (inr (c, xs, refl, e ∙ ap (λ l. c ∷ l) h))

  grown_length : (a b : FArray A) (x : A) → view b ≡ x ∷ view a → b.length ≡ suc a.length
  grown_length a b x e = omega (
    arith,
    ap length e,
    length-slice a.buf.cell a.data_offset a.length,
    length-slice b.buf.cell b.data_offset b.length,
  )

  loop-Doubles :
      (fresh : ℕ → A) (n : ℕ) (a : FArray A)
      → IsValid a
      → n < a.length
      → Doubles (unshift_each element_of fresh (suc n) a)
  loop-Doubles fresh zero a v lt =
      elim (array_unshift-Yields fresh (a.buf.cell (a.data_offset + 0)) a v) [
        | inr (raised, _, _) ↦
            subst Doubles (sym (step_throw element_of fresh 0 a _ (here a 0 v lt) raised))
              (inl refl)
        | inl y ↦
            subst Doubles (sym (step_ok element_of fresh 0 a _ (here a 0 v lt) y.returns))
              (last_round fresh a _ lt y.holds)
      ]
  loop-Doubles fresh (suc n) a v lt =
      elim (array_unshift-Yields fresh (a.buf.cell (a.data_offset + suc n)) a v) [
        | inr (raised, _, _) ↦
            subst Doubles
              (sym (step_throw element_of fresh (suc n) a _ (here a (suc n) v lt) raised))
              (inl refl)
        | inl y ↦
            subst Doubles
              (sym (step_ok element_of fresh (suc n) a _ (here a (suc n) v lt) y.returns))
              (loop-Doubles fresh n (array_unshift fresh (a.buf.cell (a.data_offset + suc n)) a).1
                y.valid (omega (arith, grown_length a _ _ y.holds)))
      ]

  not_doubled :
      (x y : A) (rest old : List A) (r : Method A (Unit {0}))
      → Doubles r
      → x ≢ y
      → r.0 ≡ ok tt
      → view r.1 ≡ x ∷ y ∷ (rest ++ old)
      → ⊥
  not_doubled x y rest old r (inl raised) ne returns h = cc
  not_doubled x y rest old r (inr (c, ys, _, d)) ne returns h =
      let p : c ≡ x = cc in let q : c ≡ y = cc in ne (sym p ∙ q)

  -- A valid array of at least two elements, the first two of which differ, is not put before itself by
  -- `array_insert` at the first position: when the call returns, the array does not hold its
  -- elements twice over.
  pub insert_itself-ne :
      (fresh : ℕ → A) (a : FArray A) (x y : A) (rest : List A)
      → IsValid a
      → view a ≡ x ∷ y ∷ rest
      → x ≢ y
      → (insert_front fresh itself a).0 ≡ ok tt
      → view (insert_front fresh itself a).1 ≢ view a ++ view a
  unfolding insert_front
  insert_itself-ne fresh a x y rest v e ne returns same =
      let (_, _, len) = slice_uncons a.buf.cell a.data_offset a.length x (y ∷ rest) e in
      let whole : Doubles (unshift_each element_of fresh a.length a) =
        subst (λ n. Doubles (unshift_each element_of fresh n a)) (sym len)
          (loop-Doubles fresh (length (y ∷ rest)) a v (omega (arith, len))) in
      not_doubled x y rest (view a) (unshift_each element_of fresh a.length a) whole ne returns
        (same ∙ ap (λ l. l ++ view a) e)
