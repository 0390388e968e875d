-- ===== src/Hash/Lookup.antt =====
-- fth_hash_ref, fth_hash_member_p and fth_hash_find of src/hash.c.
use fth.Base.{◌<◌, ◌≡◌, sym, ap, ◌∙◌, ◌⊎◌, inl, inr, true, none, some, arith, Bool-cases, ok, ◌==◌}
use fth.Memory.{load}
use fth.Memory.Writes.{load-in}
use fth.Hash.{Keys, FHash, hash_key_to_val, hash_ref, hash_member_p, hash_find}
use fth.Hash.Chain.{value_of, find_entry-cases}
use fth.Hash.Count.{total-zero}
use fth.Hash.Valid.{or_false, is_some, IsValid, lookup}

module _ {ℓ} {A : Type ℓ} (K : Keys A) where
  pub hash_key_to_val-lt :
      (h : FHash A) (key : A) → IsValid K h → hash_key_to_val K h key < h.hash_size
  hash_key_to_val-lt h key v = omega (arith, v.filled)

  pub load_bucket :
      (h : FHash A) (key : A)
      → IsValid K h
      → load h.buckets (hash_key_to_val K h key) ≡ some (h.buckets.cell (hash_key_to_val K h key))
  load_bucket h key v =
      load-in h.buckets (hash_key_to_val K h key)
        (omega (arith, hash_key_to_val-lt h key v, v.sized))

  -- An empty hash has no values.
  pub lookup_empty : (h : FHash A) (key : A) → IsValid K h → h.length ≡ 0 → lookup K h key ≡ none
  lookup_empty h key v e = ap (value_of K key) (
      total-zero h.buckets.cell h.hash_size (sym v.counted ∙ e) (hash_key_to_val K h key)
        (hash_key_to_val-lt h key v))

  -- `hash_ref` of a valid hash gives the value that it has for the key, or `#f` where it has none.
  pub hash_ref-lookup :
      (false_object : A) (key : A) (h : FHash A)
      → IsValid K h
      → hash_ref K false_object key h ≡ ok (or_false false_object (lookup K h key))
  unfolding hash_ref
  hash_ref-lookup false_object key h v =
      let i = hash_key_to_val K h key in
      elim (find_entry-cases K h.hash_size i key (h.buckets.cell i)
        (v.good i (hash_key_to_val-lt h key v))) [
          | inl (e, run, its_key, value) ↦ rw (load_bucket h key v, run, value, hash_ref)
          | inr (run, missing) ↦ rw (load_bucket h key v, run, missing, hash_ref)
        ]

  -- `hash_member_p` tells whether a valid hash has a value for the key.
  pub hash_member_p-lookup :
      (key : A) (h : FHash A) → IsValid K h → hash_member_p K key h ≡ ok (is_some (lookup K h key))
  unfolding hash_member_p
  hash_member_p-lookup key h v = elim (Bool-cases (h.length == 0)) [
    | inl t ↦ rw (t, lookup_empty h key v (ground arith), hash_member_p)
    | inr f ↦
        let i = hash_key_to_val K h key in
        elim (find_entry-cases K h.hash_size i key (h.buckets.cell i)
          (v.good i (hash_key_to_val-lt h key v))) [
            | inl (e, run, its_key, value) ↦ rw (f, load_bucket h key v, run, value, hash_member_p)
            | inr (run, missing) ↦ rw (f, load_bucket h key v, run, missing, hash_member_p)
          ]
  ]

  -- `hash_find` of a valid hash gives a key that is equal to the one asked for, with the value that
  -- the hash has for it, or `#f` where it has none.
  pub hash_find-lookup :
      (key : A) (h : FHash A)
      → IsValid K h
      → ((found : A) × (value : A) × (hash_find K key h ≡ ok (some (found, value)))
          × (K.equal key found ≡ true)
          × (lookup K h key ≡ some value))
        ⊎ ((hash_find K key h ≡ ok none) × (lookup K h key ≡ none))
  unfolding hash_find
  hash_find-lookup key h v = elim (Bool-cases (h.length == 0)) [
    | inl t ↦ inr (rw (t, hash_find), lookup_empty h key v (ground arith))
    | inr f ↦
        let i = hash_key_to_val K h key in
        elim (find_entry-cases K h.hash_size i key (h.buckets.cell i)
          (v.good i (hash_key_to_val-lt h key v))) [
            | inl (e, run, its_key, value) ↦
                inl (e.key, e.value, rw (f, load_bucket h key v, run, hash_find), its_key, value)
            | inr (run, missing) ↦ inr (rw (f, load_bucket h key v, run, hash_find), missing)
          ]
  ]
