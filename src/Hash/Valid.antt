-- ===== src/Hash/Valid.antt =====
-- What every operation of src/hash.c keeps: each item stands in the bucket of its key, no key
-- stands twice, and `length` counts the items.
use fth.Base.{ℕ, ◌<◌, ◌≡◌, Option, none, some, Bool, true, false}
use fth.Hash.{Keys, FHash, hash_key_to_val}
use fth.Hash.Chain.{Good, value_of}
use fth.Hash.Count.{total}

module _ {ℓ} {A : Type ℓ} where
  -- the value, or `#f`
  abbrev pub or_false : A → Option A → A
  or_false false_object none = false_object
  or_false false_object (some x) = x

  abbrev pub is_some : Option A → Bool
  is_some none = false
  is_some (some x) = true

module _ {ℓ} {A : Type ℓ} (K : Keys A) where
  pub record IsValid (h : FHash A) : Type ℓ where
    pub sized : h.buckets.size ≡ h.hash_size
    pub filled : 0 < h.hash_size
    pub good : (i : ℕ) → i < h.hash_size → Good K h.hash_size i (h.buckets.cell i)
    pub counted : h.length ≡ total h.buckets.cell h.hash_size

  -- the value that the hash has for a key: its abstract view is this function
  abbrev pub lookup : FHash A → A → Option A
  lookup h key = value_of K key (h.buckets.cell (hash_key_to_val K h key))
