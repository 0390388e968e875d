-- ===== src/Assoc/Words.antt =====
-- ficl_values_to_assoc of src/array.c, the word `>assoc`.
use fth.Base.{
  ℕ, zero, suc, ◌%◌, ◌/◌, ◌==◌, ltb, true, ◌||◌, if◌then◌else◌, List, ◌∷◌, ℤ, pos, negsuc, Outcome,
  ok, throw, fault, out_of_range, ◌>>=◌,
}
use fth.Array.{FArray, max_seq_length}
use fth.Array.Access.{make_empty_array}
use fth.Assoc.{Element, acell, assoc_insert}

module _ {ℓ} {A : Type ℓ} (hash_id : A → ℕ) (false_object : A) where
  -- `fth_assoc (assoc, key, val)` with an array for `assoc`, as a round of a loop
  unfoldable pub assoc_round :
      (ℕ → Element A) → A → A → FArray (Element A) → Outcome (FArray (Element A))
  assoc_round fresh key value a =
      let r = assoc_insert hash_id false_object fresh (hash_id key) (acell key value) a in
      elim r.0 [ ok _ ↦ ok r.1 | throw e ↦ throw e | fault ↦ fault ]

  -- the loop, with `n` pairs left on the stack, a value above its key; the check of the stack before
  -- has seen to it that they are there
  unfoldable pub assoc_pairs :
      (ℕ → Element A) → ℕ → List A → FArray (Element A) → Outcome (FArray (Element A))
  assoc_pairs fresh zero stack a = ok a
  assoc_pairs fresh (suc n) (value ∷ key ∷ rest) a =
      assoc_round fresh key value a >>= assoc_pairs fresh n rest
  assoc_pairs fresh (suc n) stack a = fault

  unfoldable pub values_to_assoc :
      Element A → (ℕ → Element A) → ℤ → List A → Outcome (FArray (Element A))
  values_to_assoc zero_bits fresh (negsuc k) stack = throw out_of_range
  values_to_assoc zero_bits fresh (pos len) stack =
      if (len % 2 == 1) || ltb max_seq_length len
      then throw out_of_range
      else make_empty_array zero_bits
        >>= (λ a. assoc_pairs fresh (len / 2) stack (record a { is_assoc = true }))
