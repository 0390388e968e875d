-- ===== src/Array/Search/Keep.antt =====
-- fth_array_compact and fth_array_uniq: the array is emptied and built anew from copies of its
-- elements, within the buffer that it has.
use fth.Base.{
  ℕ, zero, suc, ◌+◌, ◌≤◌, ◌<◌, ◌≡◌, refl, sym, ap, ◌∙◌, ◌⊎◌, inl, inr, Bool, true, Bool-cases, List,
  [], ◌∷◌, ◌++◌, arith, if◌then◌else◌, ok, throw, out_of_range, length, map,
}
use mathlib.Core.Path.{subst}
use mathlib.Core.List.{append-nil, append_assoc}
use fth.Memory.Slice.{slice, length-slice}
use fth.Memory.Writes.{load-in}
use fth.Array.{FArray, Method, view, max_seq_length}
use fth.Array.Valid.{IsValid, Yields}
use fth.Array.Ends.Push.{Added, array_push-Added}
use fth.Array.Access.Make.{first_buf_length}
use fth.Array.Copy.Whole.{ary_copy-Makes, copies_length}
use fth.Array.Search.{each_into, ary_compact_each, rebuild, array_compact}

module _ {ℓ} {A : Type ℓ} where
  -- the elements go one by one into a list that begins as `acc`
  unfoldable pub into : (A → List A → List A) → List A → List A → List A
  into add acc [] = acc
  into add acc (x ∷ xs) = into add (add x acc) xs

  -- A round of the loop leaves `add x xs` where there was `xs`, and does not move the buffer.
  pub record Adds (f : A → FArray A → Method A (Unit {0})) (add : A → List A → List A)
      : Type ℓ where
    pub round :
        (x : A) (a : FArray A)
        → IsValid a
        → a.top + a.length < a.buf_length
        → Added a (f x a) tt (add x (view a))

  each_step :
      (f : A → FArray A → Method A (Unit {0})) (old a : FArray A) (i n : ℕ)
      → IsValid old
      → i < old.length
      → (f (old.buf.cell (old.data_offset + i)) a).0 ≡ ok tt
      → each_into f old i (suc n) a
        ≡ each_into f old (suc i) n (f (old.buf.cell (old.data_offset + i)) a).1
  unfolding each_into
  each_step f old a i n v lt e =
      rw (load-in old.buf (old.data_offset + i) (omega arith), e, each_into)

  each_into-Yields :
      (f : A → FArray A → Method A (Unit {0})) (add : A → List A → List A) (old a : FArray A)
      (i n : ℕ)
      → Adds f add
      → IsValid old
      → i + n ≤ old.length
      → IsValid a
      → a.top + a.length + n ≤ a.buf_length
      → Yields
          (each_into f old i n a)
          tt
          (into add (view a) (slice old.buf.cell (old.data_offset + i) n))
  unfolding each_into into
  each_into-Yields f add old a i zero h v le w room = record {
    returns = refl;
    valid = w;
    holds = refl;
  }
  each_into-Yields f add old a i (suc n) h v le w room =
      let x = old.buf.cell (old.data_offset + i) in
      let done = h.round x a w (omega arith) in
      let b = (f x a).1 in
      let rest =
        each_into-Yields f add old b (suc i) n h v (omega arith) done.yields.valid
          (omega (arith, done.same_top, done.same_buf_length, done.grows)) in
      let e : old.data_offset + suc i ≡ suc (old.data_offset + i) = omega arith in
      subst
        (λ r. Yields r tt (into add (view a) (slice old.buf.cell (old.data_offset + i) (suc n))))
        (sym (each_step f old a i n v (omega arith) done.yields.returns))
        (subst
          (λ l.
            Yields (each_into f old (suc i) n b) tt
              (into add l (slice old.buf.cell (suc (old.data_offset + i)) n)))
          done.yields.holds
          (subst
            (λ k.
              Yields (each_into f old (suc i) n b) tt (into add (view b) (slice old.buf.cell k n)))
            e rest))

  -- The rebuilt array, or OUT-OF-RANGE where the buffer of the copy would be too long.
  pub rebuild-Yields :
      (z : A) (copy : A → A) (f : A → FArray A → Method A (Unit {0})) (add : A → List A → List A)
      (a : FArray A)
      → Adds f add
      → IsValid a
      → Yields (rebuild z copy f a) tt (into add [] (map copy (view a)))
        ⊎ ((rebuild z copy f a ≡ (throw out_of_range, a))
            × (max_seq_length < first_buf_length a.length))
  unfolding rebuild
  rebuild-Yields z copy f add a h v = elim (ary_copy-Makes z copy a v) [
    | inr (raised, long) ↦ inr (rw (raised, rebuild), omega (arith, long, copies_length copy a))
    | inl (old, run, w, holds) ↦
        let empty : FArray A = record a { length = 0; changed_p = true } in
        let size : old.length ≡ a.length =
          sym (length-slice old.buf.cell old.data_offset old.length)
          ∙ ap length holds
          ∙ copies_length copy a in
        let e : old.data_offset + 0 ≡ old.data_offset = omega arith in
        let all =
          each_into-Yields f add old empty 0 old.length h w (omega arith)
            (record { sized = v.sized; aimed = v.aimed; fits = omega arith })
            (omega (arith, size)) in
        inl (
          rw (run, rebuild)
            (subst (λ l. Yields (each_into f old 0 old.length empty) tt (into add [] l)) holds
              (subst
                (λ k.
                  Yields (each_into f old 0 old.length empty) tt
                    (into add [] (slice old.buf.cell k old.length)))
                e all)))
  ]

  -- the elements that do not pass the test
  abbrev pub without : (A → Bool) → List A → List A
  without test [] = []
  without test (x ∷ xs) = if test x then without test xs else x ∷ without test xs

  add_some : (A → Bool) → A → List A → List A
  add_some is_nil x xs = if is_nil x then xs else xs ++ x ∷ []

  into-add_some :
      (is_nil : A → Bool) (acc xs : List A)
      → into (add_some is_nil) acc xs ≡ acc ++ without is_nil xs
  unfolding into add_some
  into-add_some is_nil acc [] = sym (append-nil acc)
  into-add_some is_nil acc (x ∷ xs) = elim (Bool-cases (is_nil x)) [
    | inl t ↦ rw (t, add_some) (into-add_some is_nil acc xs)
    | inr f ↦
        rw (f, add_some)
          (into-add_some is_nil (acc ++ x ∷ []) xs ∙ append_assoc acc (x ∷ []) (without is_nil xs))
  ]

  pub same_Added : (a : FArray A) → IsValid a → Added {ℓ, 0} {B = Unit {0}} a (ok tt, a) tt (view a)
  same_Added a v = record {
    yields = record { returns = refl; valid = v; holds = refl };
    same_top = refl;
    same_buf_length = refl;
    grows = omega arith;
  }

  compact-Adds :
      (is_nil : A → Bool) (fresh : ℕ → A) → Adds (ary_compact_each is_nil fresh) (add_some is_nil)
  unfolding ary_compact_each add_some
  compact-Adds is_nil fresh = record {
    round = λ x a v room. elim (Bool-cases (is_nil x)) [
      | inl t ↦ rw (t, ary_compact_each, add_some) (same_Added a v)
      | inr f ↦ rw (f, ary_compact_each, add_some) (array_push-Added fresh x a v room)
    ];
  }

  -- `array_compact` of a valid array leaves the copies of its elements, in order, less those copies
  -- that are nil; or it raises OUT-OF-RANGE where the buffer of a fresh copy would be too long, and
  -- leaves the array as it was.
  pub array_compact-Yields :
      (z : A) (copy : A → A) (is_nil : A → Bool) (fresh : ℕ → A) (a : FArray A)
      → IsValid a
      → Yields (array_compact z copy is_nil fresh a) tt (without is_nil (map copy (view a)))
        ⊎ ((array_compact z copy is_nil fresh a ≡ (throw out_of_range, a))
            × (max_seq_length < first_buf_length a.length))
  unfolding array_compact
  array_compact-Yields z copy is_nil fresh a v =
      subst
        (λ l.
          Yields (rebuild z copy (ary_compact_each is_nil fresh) a) tt l
          ⊎ ((rebuild z copy (ary_compact_each is_nil fresh) a ≡ (throw out_of_range, a))
              × (max_seq_length < first_buf_length a.length)))
        (into-add_some is_nil [] (map copy (view a)))
        (rebuild-Yields z copy (ary_compact_each is_nil fresh) (add_some is_nil) a
          (compact-Adds is_nil fresh) v)
