-- ===== src/Hash/Export/Pushes.antt =====
-- The arrays of the keys and of the values of a hash.
use fth.Base.{
  ℕ, ◌≡◌, refl, sym, ap, ◌∙◌, ◌⊎◌, inl, inr, List, [], ◌∷◌, ◌++◌, Outcome, ok, throw, ◌>>=◌,
  out_of_range, map, length, arith,
}
use mathlib.Core.List.{append-nil, append_assoc}
use fth.Memory.Slice.{slice}
use fth.Array.{FArray, view}
use fth.Array.Valid.{IsValid}
use fth.Array.Access.{make_empty_array}
use fth.Array.Access.Fresh.{make_array_len-Fresh}
use fth.Array.Ends.{array_push}
use fth.Array.Ends.Push.{array_push-Yields}
use fth.Hash.{Keys, FItem, FHash}
use fth.Hash.Loops.{hash_each}
use fth.Hash.Chain.{Lawful, value_of}
use fth.Hash.Valid.{lookup, IsValid as IsValidHash}
use fth.Hash.Entries.{fold, Apart, entries, entries-Lists}
use fth.Hash.Each.{hash_each-fold}
use fth.Hash.Export.{push_round, hash_keys, hash_values}

module _ {ℓ} {A : Type ℓ} (fresh : ℕ → A) where
  -- The call returns a valid array that holds `xs`, or raises OUT-OF-RANGE.
  abbrev pub Gives : Outcome (FArray A) → List A → Type ℓ
  Gives r xs = ((a : FArray A) × (r ≡ ok a) × IsValid a × (view a ≡ xs)) ⊎ (r ≡ throw out_of_range)

  push_round-Gives :
      (v : A) (a : FArray A) → IsValid a → Gives (push_round fresh v a) (view a ++ v ∷ [])
  unfolding push_round
  push_round-Gives v a valid = elim (array_push-Yields fresh v a valid) [
    | inl y ↦ inl ((array_push fresh v a).1, rw (y.returns, push_round) refl, y.valid, y.holds)
    | inr (raised, _, _) ↦ inr (rw (raised, push_round) refl)
  ]

  fold-Gives :
      (pick : A → A → A) (items : List (FItem A)) (a : FArray A)
      → IsValid a
      → Gives
          (fold (λ key value obj. push_round fresh (pick key value) obj) items a)
          (view a ++ map (λ e. pick e.key e.value) items)
  fold-Gives pick [] a valid = inl (a, refl, valid, sym (append-nil (view a)))
  fold-Gives pick (e ∷ items) a valid = elim (push_round-Gives (pick e.key e.value) a valid) [
    | inr raised ↦
        inr (
          ap (λ o. o >>= fold (λ key value obj. push_round fresh (pick key value) obj) items)
            raised)
    | inl (b, run, valid', holds) ↦ elim (fold-Gives pick items b valid') [
      | inr raised ↦ inr (
          ap (λ o. o >>= fold (λ key value obj. push_round fresh (pick key value) obj) items) run
          ∙ raised)
      | inl (c, onward, valid'', holds') ↦ inl (
        c,
        ap (λ o. o >>= fold (λ key value obj. push_round fresh (pick key value) obj) items) run
            ∙ onward,
        valid'',
        holds'
            ∙ ap (λ l. l ++ map (λ x. pick x.key x.value) items) holds
            ∙ append_assoc (view a) (pick e.key e.value ∷ []) (map (λ x. pick x.key x.value) items),
      )
    ]
  ]

  empty_array : (z : A) → (a : FArray A) × (make_empty_array z ≡ ok a) × IsValid a × (view a ≡ [])
  unfolding make_empty_array
  empty_array z = elim (make_array_len-Fresh z 0) [
    | inr (_, long) ↦ absurd (omega (arith, long))
    | inl (r, run, h) ↦ (
      r,
      run,
      record {
        sized = h.sized ∙ sym h.buf_length;
        aimed = h.aimed ∙ sym h.top;
        fits = omega (arith, h.top, h.len, h.buf_length);
      },
      ap (slice r.buf.cell r.data_offset) h.len,
    )
  ]

  -- What `hash_each` with a push of the picked object to a new array gives.
  picked-Gives :
      (K : Keys A) (z : A) (pick : A → A → A) (h : FHash A)
      → IsValidHash K h
      → Gives
          (make_empty_array z
            >>= hash_each K (λ key value obj. push_round fresh (pick key value) obj) h)
          (map (λ e. pick e.key e.value) (entries h))
  picked-Gives K z pick h v =
      let (a, made, valid, holds) = empty_array z in
      let run =
        ap (λ o. o >>= hash_each K (λ key value obj. push_round fresh (pick key value) obj) h) made
        ∙ hash_each-fold K (λ key value obj. push_round fresh (pick key value) obj) h a v in
      elim (fold-Gives pick (entries h) a valid) [
        | inr raised ↦ inr (run ∙ raised)
        | inl (b, filled, valid', holds') ↦ inl (
          b,
          run ∙ filled,
          valid',
          holds' ∙ ap (λ l. l ++ map (λ e. pick e.key e.value) (entries h)) holds,
        )
      ]

  -- There is one list of pairs, as many as the length of a valid hash, no two with equal keys, and
  -- with the values that the hash has for its keys, such that `hash_keys` gives a valid array of its
  -- keys and `hash_values` one of its values, in the same order; either raises OUT-OF-RANGE instead
  -- where its array grows too long.
  pub hash_keys-hash_values :
      (K : Keys A) (z : A) (h : FHash A)
      → Lawful K
      → IsValidHash K h
      → (items : List (FItem A)) × (length items ≡ h.length)
        × Apart K items
        × ((k : A) → value_of K k items ≡ lookup K h k)
        × Gives (hash_keys K z fresh h) (map (λ e. e.key) items)
        × Gives (hash_values K z fresh h) (map (λ e. e.value) items)
  unfolding hash_keys hash_values
  hash_keys-hash_values K z h L v =
      let (size, apart, looks) = entries-Lists K h L v in
      (
        entries h,
        size,
        apart,
        looks,
        picked-Gives K z (λ key value. key) h v,
        picked-Gives K z (λ key value. value) h v,
      )
