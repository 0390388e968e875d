-- ===== src/Hash/Loops.antt =====
-- fth_hash_each, fth_hash_map, fth_hash_copy, fth_hash_clear, hash= and the words that fill a
-- hash, of src/hash.c.
pub mod Pairs
pub mod Numbered
use fth.Base.{
  ℕ, zero, suc, ◌==◌, ◌%◌, ◌/◌, true, false, if◌then◌else◌, ℤ, pos, negsuc, List, [], ◌∷◌, none,
  some, Outcome, ok, throw, fault, ◌>>=◌, out_of_range,
}
use fth.Memory.{load, store_each}
use fth.Hash.{Keys, FItem, FHash, make_hash, hash_set, default_hash_size}

module _ {ℓ} {A : Type ℓ} (K : Keys A) where
  module _ {κ} {S : Type κ} (func : A → A → S → Outcome S) where
    unfoldable pub each_in : List (FItem A) → S → Outcome S
    each_in [] acc = ok acc
    each_in (e ∷ rest) acc = elim (K.is_key e.key) [
      | true ↦ func e.key e.value acc >>= each_in rest
      | false ↦ each_in rest acc
    ]

    -- the buckets from `i` on, with `n` of them left
    unfoldable pub each_from : ℕ → ℕ → FHash A → S → Outcome S
    each_from i zero h acc = ok acc
    each_from i (suc n) h acc = elim (load h.buckets i) [
      | none ↦ fault
      | some chain ↦ each_in chain acc >>= each_from (suc i) n h
    ]

    unfoldable pub hash_each : FHash A → S → Outcome S
    hash_each h acc = each_from 0 h.hash_size h acc

  -- `fth_hash_set (hs, key, value)` as a round of a loop
  unfoldable pub put_round : A → A → FHash A → Outcome (FHash A)
  put_round key value h =
      let r = hash_set K key value h in
      elim r.0 [ ok _ ↦ ok r.1 | throw e ↦ throw e | fault ↦ fault ]

  unfoldable pub hash_map : (A → A → A) → FHash A → Outcome (FHash A)
  hash_map func h =
      hash_each (λ key value hs. put_round key (func key value) hs) h (make_hash (pos h.hash_size))

  unfoldable pub hash_copy : (A → A) → FHash A → Outcome (FHash A)
  hash_copy copy h =
      let new = make_hash (pos h.hash_size) in
      if h.length == 0
      then ok new
      else hash_each (λ key value hs. put_round (copy key) (copy value) hs) h new

  -- every bucket is set to NULL and its items are freed
  unfoldable pub hash_clear : FHash A → Outcome (Unit {0}) × FHash A
  hash_clear h =
      if h.length == 0
      then (ok tt, h)
      else elim (store_each (λ _. some []) 0 0 h.hash_size h.buckets) [
        | none ↦ (fault, h)
        | some d ↦ (ok tt, record h { buckets = d; length = 0; changed_p = true })
      ]

  -- the loop of `>hash`, with `n` pairs left on the stack, a value above its key; the check of the
  -- stack before has seen to it that they are there
  unfoldable pub put_pairs : ℕ → List A → FHash A → Outcome (FHash A)
  put_pairs zero stack h = ok h
  put_pairs (suc n) (value ∷ key ∷ rest) h = put_round key value h >>= put_pairs n rest
  put_pairs (suc n) stack h = fault

  unfoldable pub values_to_hash : ℤ → List A → Outcome (FHash A)
  values_to_hash (negsuc k) stack = throw out_of_range
  values_to_hash (pos len) stack =
      if len % 2 == 1
      then throw out_of_range
      else put_pairs (len / 2) stack (make_hash (pos default_hash_size))
