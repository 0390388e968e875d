-- ===== src/Hash/Export.antt =====
-- fth_hash_keys, fth_hash_values and fth_hash_to_array of src/hash.c: arrays filled from
-- fth_hash_each.
pub mod Pushes
use fth.Base.{Outcome, ok, throw, fault, ◌>>=◌, ℕ, List, [], ◌∷◌}
use fth.Array.{FArray}
use fth.Array.Access.{make_empty_array, make_array_var}
use fth.Array.Ends.{array_push}
use fth.Hash.{Keys, FHash}
use fth.Hash.Loops.{hash_each}

-- `fth_array_push (array, value)` as a round of a loop
unfoldable pub push_round {ℓ} : {B : Type ℓ} → (ℕ → B) → B → FArray B → Outcome (FArray B)
push_round fresh value a =
    let r = array_push fresh value a in
    elim r.0 [ ok _ ↦ ok r.1 | throw e ↦ throw e | fault ↦ fault ]

module _ {ℓ} {A : Type ℓ} (K : Keys A) (zero_bits : A) (fresh : ℕ → A) where
  unfoldable pub hash_keys : FHash A → Outcome (FArray A)
  hash_keys h =
      make_empty_array zero_bits >>= hash_each K (λ key value obj. push_round fresh key obj) h

  unfoldable pub hash_values : FHash A → Outcome (FArray A)
  hash_values h =
      make_empty_array zero_bits >>= hash_each K (λ key value obj. push_round fresh value obj) h

  -- the elements are the arrays of a key and its value; `zero_pair` and `fresh_pair` are to the
  -- array of them what `zero_bits` and `fresh` are to these
  unfoldable pub hs_to_array : FArray A → (ℕ → FArray A) → FHash A → Outcome (FArray (FArray A))
  hs_to_array zero_pair fresh_pair h =
      make_empty_array zero_pair
      >>= hash_each K
          (λ key value acc.
            make_array_var zero_bits (key ∷ value ∷ [])
            >>= (λ pair. push_round fresh_pair pair acc))
          h
