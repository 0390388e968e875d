-- ===== src/Hash/Delete.antt =====
-- fth_hash_delete of src/hash.c.
use fth.Base.{
  suc, ◌-◌, ◌<◌, ◌≡◌, refl, ◌⊎◌, inl, inr, true, false, List, none, some, if◌then◌else◌, arith,
  Bool-cases, ok, ◌==◌, ==_iff,
}
use fth.Memory.Writes.{store-in}
use fth.Hash.{Keys, FItem, FHash, hash_key_to_val, hash_delete, unlink}
use fth.Hash.Chain.{Lawful, unlink-cases, Unlinked}
use fth.Hash.Valid.{IsValid, lookup}
use fth.Hash.Lookup.{hash_key_to_val-lt, load_bucket, lookup_empty}
use fth.Hash.Update.{with_chain, with_chain-IsValid, lookup-with_chain}

module _ {ℓ} {A : Type ℓ} (K : Keys A) where
  -- What `delete` promises where the hash had a value for the key.
  pub record Deletes (key : A) (h h' : FHash A) : Type ℓ where
    pub valid : IsValid K h'
    pub looks : (k : A) → lookup K h' k ≡ (if K.equal k key then none else lookup K h k)
    pub same_size : h'.hash_size ≡ h.hash_size
    pub counts : suc h'.length ≡ h.length

  delete_run :
      (key : A) (h : FHash A) (e : FItem A) (c : List (FItem A))
      → IsValid K h
      → (h.length == 0) ≡ false
      → unlink K key (h.buckets.cell (hash_key_to_val K h key)) ≡ some (e, c)
      → hash_delete K key h
        ≡ (ok (some (e.key, e.value)), with_chain K h (hash_key_to_val K h key) c (h.length - 1))
  unfolding hash_delete
  delete_run key h e c v f run =
      let lt = hash_key_to_val-lt K h key v in
      rw (
        f,
        load_bucket K h key v,
        run,
        store-in h.buckets (hash_key_to_val K h key) c (omega (arith, lt, v.sized)),
        hash_delete,
      )

  delete_none :
      (key : A) (h : FHash A)
      → IsValid K h
      → (h.length == 0) ≡ false
      → unlink K key (h.buckets.cell (hash_key_to_val K h key)) ≡ none
      → hash_delete K key h ≡ (ok none, h)
  unfolding hash_delete
  delete_none key h v f run = rw (f, load_bucket K h key v, run, hash_delete)

  delete_empty :
      (key : A) (h : FHash A) → (h.length == 0) ≡ true → hash_delete K key h ≡ (ok none, h)
  unfolding hash_delete
  delete_empty key h t = rw (t, hash_delete)

  unlink-Deletes :
      (key : A) (h : FHash A) (e : FItem A) (c : List (FItem A))
      → Lawful K
      → IsValid K h
      → (h.length == 0) ≡ false
      → Unlinked K h.hash_size
          (hash_key_to_val K h key)
          key
          (h.buckets.cell (hash_key_to_val K h key))
          e
          c
      → Deletes key h (with_chain K h (hash_key_to_val K h key) c (h.length - 1))
  unlink-Deletes key h e c L v f w =
      let some_left : 0 < h.length = ground arith in
      record {
        valid =
            with_chain-IsValid K h (hash_key_to_val K h key) c (h.length - 1) v
              (hash_key_to_val-lt K h key v) w.good (omega (arith, w.shorter, some_left));
        looks = lookup-with_chain K h key c (h.length - 1) none L w.looks;
        same_size = refl;
        counts = omega (arith, some_left);
      }

  -- On a valid hash `hash_delete` returns a key equal to the one asked for with the value that the
  -- hash had, and leaves a valid hash that is one shorter, has no value for that key and has for all
  -- others what it had; where the hash had no value for the key it returns `#f` and changes
  -- nothing.
  pub hash_delete-cases :
      (key : A) (h : FHash A)
      → Lawful K
      → IsValid K h
      → ((found : A) × (value : A) × ((hash_delete K key h).0 ≡ ok (some (found, value)))
          × (K.equal key found ≡ true)
          × (lookup K h key ≡ some value)
          × Deletes key h (hash_delete K key h).1)
        ⊎ ((hash_delete K key h ≡ (ok none, h)) × (lookup K h key ≡ none))
  hash_delete-cases key h L v = elim (Bool-cases (h.length == 0)) [
    | inl t ↦ inr (delete_empty key h t, lookup_empty K h key v ((==_iff _ _).0 t))
    | inr f ↦
        let i = hash_key_to_val K h key in
        elim (unlink-cases K h.hash_size i key (h.buckets.cell i) L
          (v.good i (hash_key_to_val-lt K h key v))) [
            | inl (e, c, run, w) ↦ inl (
              e.key,
              e.value,
              rw (delete_run key h e c v f run) refl,
              w.its_key,
              w.its_value,
              rw (delete_run key h e c v f run) (unlink-Deletes key h e c L v f w),
            )
            | inr (run, missing) ↦ inr (delete_none key h v f run, missing)
          ]
  ]
