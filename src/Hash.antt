-- ===== src/Hash.antt =====
-- Hashes of src/hash.c: an array of buckets, each a chain of items linked from the newest on.
pub mod Loops
pub mod Chain
pub mod Count
pub mod Valid
pub mod Lookup
pub mod Update
pub mod Delete
pub mod Fresh
pub mod Entries
pub mod Each
pub mod Fill
pub mod Images
pub mod Rebuild
pub mod Mapped
pub mod Export
pub mod Equal
use fth.Base.{
  ℕ, zero, suc, ◌+◌, ◌-◌, ◌%◌, ◌==◌, Bool, true, false, ◌&&◌, if◌then◌else◌, ℤ, pos, negsuc, List,
  [], ◌∷◌, Option, none, some, Outcome, ok, throw, fault,
}
use fth.Memory.{Block, calloc, load, store}

-- What the hash asks of its keys: `fth_object_equal_p` and `fth_hash_id` of src/object.c, which end in
-- the functions of the object's type, those that a script defines among them; and whether a key is the
-- null cell, which the loops pass over (`if (entry->key && …)`).
pub record Keys {ℓ} (A : Type ℓ) : Type ℓ where
  pub equal : A → A → Bool
  pub hash_id : A → ℕ
  pub is_key : A → Bool

pub record FItem {ℓ} (A : Type ℓ) : Type ℓ where
  pub key : A
  pub value : A

-- `buckets` is `data`. A chain is the list of its items, which stands for the `next` pointers; NULL is the empty list.
pub record FHash {ℓ} (A : Type ℓ) : Type ℓ where
  pub hash_size : ℕ
  pub length : ℕ
  pub buckets : Block (List (FItem A))
  pub changed_p : Bool

abbrev pub default_hash_size : ℕ
default_hash_size = 101

-- the size that `make_hash` takes: the default one if `hashsize < 1`
unfoldable pub sound_size : ℤ → ℕ
sound_size (negsuc k) = default_hash_size
sound_size (pos n) = if n == 0 then default_hash_size else n

module _ {ℓ} {A : Type ℓ} where
  unfoldable pub make_item : List (FItem A) → A → A → List (FItem A)
  make_item next key value = (record { key = key; value = value }) ∷ next

  unfoldable pub make_hash : ℤ → FHash A
  make_hash hashsize = record {
    hash_size = sound_size hashsize;
    length = 0;
    buckets = calloc [] (sound_size hashsize);
    changed_p = true;
  }

module _ {ℓ} {A : Type ℓ} (K : Keys A) where
  abbrev pub hash_key_to_val : FHash A → A → ℕ
  hash_key_to_val h key = K.hash_id key % h.hash_size

  -- the test in the loops: `entry->key && fth_object_equal_p (key, entry->key)`
  abbrev pub matches : A → FItem A → Bool
  matches key e = K.is_key e.key && K.equal key e.key

  -- the loop of `ref`, `member_p` and `find`
  unfoldable pub find_entry : A → List (FItem A) → Option (FItem A)
  find_entry key [] = none
  find_entry key (e ∷ rest) = if matches key e then some e else find_entry key rest

  -- the loop of `set`: the chain with its value overwritten, if it has the key
  unfoldable pub overwrite : A → A → List (FItem A) → Option (List (FItem A))
  overwrite key value [] = none
  overwrite key value (e ∷ rest) =
      let later = overwrite key value rest in
      if matches key e
      then some (record e { value = value } ∷ rest)
      else elim later [ none ↦ none | some rest' ↦ some (e ∷ rest') ]

  -- the loop of `delete`: the item and the chain without it, if it has the key
  unfoldable pub unlink : A → List (FItem A) → Option (FItem A × List (FItem A))
  unlink key [] = none
  unlink key (e ∷ rest) =
      let later = unlink key rest in
      if matches key e
      then some (e, rest)
      else elim later [ none ↦ none | some (found, rest') ↦ some (found, e ∷ rest') ]

  unfoldable pub hash_ref : A → A → FHash A → Outcome A
  hash_ref false_object key h = elim (load h.buckets (hash_key_to_val h key)) [
    | none ↦ fault
    | some chain ↦ elim (find_entry key chain) [ none ↦ ok false_object | some e ↦ ok e.value ]
  ]

  -- `if found overwrite, else make_item and length++`
  unfoldable pub hash_set : A → A → FHash A → Outcome (Unit {0}) × FHash A
  hash_set key value h =
      let i = hash_key_to_val h key in
      let changed = record h { changed_p = true } in
      elim (load h.buckets i) [
        | none ↦ (fault, changed)
        | some chain ↦ elim (overwrite key value chain) [
          | some written ↦ elim (store h.buckets i written) [
            | none ↦ (fault, changed)
            | some d ↦ (ok tt, record changed { buckets = d })
          ]
          | none ↦ elim (store h.buckets i (make_item chain key value)) [
            | none ↦ (fault, changed)
            | some d ↦ (ok tt, record changed { buckets = d; length = h.length + 1 })
          ]
        ]
      ]

  -- the pair of the key and the value that were there, or `#f`
  unfoldable pub hash_delete : A → FHash A → Outcome (Option (A × A)) × FHash A
  hash_delete key h =
      let i = hash_key_to_val h key in
      if h.length == 0 then (ok none, h) else elim (load h.buckets i) [
        | none ↦ (fault, h)
        | some chain ↦ elim (unlink key chain) [
          | none ↦ (ok none, h)
          | some (e, rest) ↦ elim (store h.buckets i rest) [
            | none ↦ (fault, h)
            | some d ↦ (
              ok (some (e.key, e.value)),
              record h { buckets = d; length = h.length - 1; changed_p = true },
            )
          ]
        ]
      ]

  unfoldable pub hash_member_p : A → FHash A → Outcome Bool
  hash_member_p key h =
      if h.length == 0 then ok false else elim (load h.buckets (hash_key_to_val h key)) [
        | none ↦ fault
        | some chain ↦ elim (find_entry key chain) [ none ↦ ok false | some e ↦ ok true ]
      ]

  unfoldable pub hash_find : A → FHash A → Outcome (Option (A × A))
  hash_find key h =
      if h.length == 0 then ok none else elim (load h.buckets (hash_key_to_val h key)) [
        | none ↦ fault
        | some chain ↦ elim (find_entry key chain) [
          | none ↦ ok none
          | some e ↦ ok (some (e.key, e.value))
        ]
      ]
