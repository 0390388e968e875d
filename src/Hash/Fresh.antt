-- ===== src/Hash/Fresh.antt =====
-- Hashes made and cleared: make_hash and fth_hash_clear of src/hash.c.
use fth.Base.{
  ℕ, ◌<◌, ◌≡◌, refl, sym, ap, ◌∙◌, inl, inr, true, false, List, [], none, some, arith, Bool-cases,
  ok, ◌==◌, ==_iff, ℤ, pos, negsuc,
}
use mathlib.Core.Path.{subst}
use fth.Memory.{Block, calloc, store_each}
use fth.Memory.Writes.{store_each-Filled}
use fth.Hash.{Keys, FItem, FHash, make_hash, sound_size}
use fth.Hash.Loops.{hash_clear}
use fth.Hash.Chain.{Good}
use fth.Hash.Count.{total_empty}
use fth.Hash.Valid.{IsValid, lookup}
use fth.Hash.Lookup.{lookup_empty}

sound_size_positive : (n : ℤ) → 0 < sound_size n
unfolding sound_size
sound_size_positive (pos n) = ground arith
sound_size_positive (negsuc k) = omega arith

module _ {ℓ} {A : Type ℓ} (K : Keys A) where
  -- A hash without items.
  pub record Empty (h : FHash A) : Type ℓ where
    pub valid : IsValid K h
    pub none_there : (key : A) → lookup K h key ≡ none
    pub no_length : h.length ≡ 0

  all-Empty :
      (h : FHash A)
      → h.buckets.size ≡ h.hash_size
      → 0 < h.hash_size
      → h.length ≡ 0
      → ((i : ℕ) → i < h.hash_size → h.buckets.cell i ≡ [])
      → Empty h
  all-Empty h size some_size len e =
      let v : IsValid K h = record {
        sized = size;
        filled = some_size;
        good = λ i lt. subst (Good K h.hash_size i) (sym (e i lt)) tt;
        counted = len ∙ sym (total_empty h.buckets.cell h.hash_size e);
      } in
      record { valid = v; none_there = λ key. lookup_empty K h key v len; no_length = len }

  -- `make_hash` makes a valid hash without a value for any key, whatever size it is asked for.
  pub make_hash-Empty : (hashsize : ℤ) → Empty (make_hash hashsize)
  unfolding make_hash calloc
  make_hash-Empty hashsize =
      all-Empty (make_hash hashsize) refl (sound_size_positive hashsize) refl (λ i lt. refl)

  cleared : FHash A → Block (List (FItem A)) → FHash A
  cleared h b = record h { buckets = b; length = 0; changed_p = true }

  cleared_run :
      (h : FHash A) (b : Block (List (FItem A)))
      → (h.length == 0) ≡ false
      → store_each (λ _. some []) 0 0 h.hash_size h.buckets ≡ some b
      → hash_clear K h ≡ (ok tt, cleared h b)
  unfolding hash_clear cleared
  cleared_run h b f run = rw (f, run, hash_clear)

  kept : (h : FHash A) → (h.length == 0) ≡ true → hash_clear K h ≡ (ok tt, h)
  unfolding hash_clear
  kept h t = rw (t, hash_clear)

  -- `hash_clear` of a valid hash returns and leaves a valid hash without a value for any key, and of
  -- the same size.
  pub hash_clear-Empty :
      (h : FHash A)
      → IsValid K h
      → ((hash_clear K h).0 ≡ ok tt)
        × Empty (hash_clear K h).1
        × ((hash_clear K h).1.hash_size ≡ h.hash_size)
  unfolding cleared
  hash_clear-Empty h v = elim (Bool-cases (h.length == 0)) [
    | inl t ↦ rw (kept h t) (
      refl,
      record {
        valid = v;
        none_there = λ key. lookup_empty K h key v ((==_iff _ _).0 t);
        no_length = (==_iff _ _).0 t;
      },
      refl,
    )
    | inr f ↦
        let (b, run, w) =
          store_each-Filled (λ _. some []) (λ _. []) 0 0 h.hash_size h.buckets (λ k lt. refl)
            (omega (arith, v.sized)) in
        rw (cleared_run h b f run) (
          refl,
          all-Empty (cleared h b) (w.same_size ∙ v.sized) v.filled refl
              (λ i lt. ap b.cell (omega arith) ∙ w.inside i lt),
          refl,
        )
  ]
