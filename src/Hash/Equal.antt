-- ===== src/Hash/Equal.antt =====
-- hs_equal_p of src/hash.c.
pub mod Agree
use fth.Base.{
  ℕ, zero, suc, ◌+◌, ◌≤◌, ◌<◌, ◌≡◌, refl, sym, ap, ◌∙◌, ◌⊎◌, inl, inr, ◌↔◌, Bool, true, false, ◌&&◌,
  ◌==◌, ==_iff, Bool-cases, if◌then◌else◌, List, [], ◌∷◌, ◌++◌, Option, none, some, Outcome, ok,
  throw, fault, ◌>>=◌, arith,
}
use fth.Memory.{load}
use fth.Hash.{Keys, FItem, FHash, hash_find}
use fth.Hash.Chain.{Lawful, Good, value_of}
use fth.Hash.Valid.{IsValid, lookup}

module _ {ℓ} {A : Type ℓ} (K : Keys A) where
  -- the rounds over a chain; `false` is the early return
  unfoldable pub equal_in : FHash A → List (FItem A) → Outcome Bool
  equal_in obj [] = ok true
  equal_in obj (e ∷ rest) = elim (K.is_key e.key) [
    | false ↦ equal_in obj rest
    | true ↦ hash_find K e.key obj >>= (λ tmp. elim tmp [
      | none ↦ ok false
      | some (key, value) ↦ elim (K.equal e.value value) [
        | false ↦ ok false
        | true ↦ equal_in obj rest
      ]
    ])
  ]

  unfoldable pub equal_from : ℕ → ℕ → FHash A → FHash A → Outcome Bool
  equal_from i zero self obj = ok true
  equal_from i (suc n) self obj = elim (load self.buckets i) [
    | none ↦ fault
    | some chain ↦
        equal_in obj chain
        >>= (λ same. elim same [ false ↦ ok false | true ↦ equal_from (suc i) n self obj ])
  ]

  unfoldable pub hash_equal_p : FHash A → FHash A → Outcome Bool
  hash_equal_p self obj =
      if (self.hash_size == obj.hash_size) && (self.length == obj.length)
      then equal_from 0 self.hash_size self obj
      else ok false
