-- ===== src/Hash/Rebuild.antt =====
-- fth_hash_map and fth_hash_copy of src/hash.c.
use fth.Base.{
  ℕ, ◌+◌, ◌<◌, ◌≡◌, refl, ap, ◌∙◌, inl, List, Option, none, some, arith, ok, length, pos,
}
use mathlib.Core.Path.{ap₂}
use fth.Hash.{Keys, FItem, FHash, hash_key_to_val, make_hash, sound_size}
use fth.Hash.Loops.{put_round, hash_each}
use fth.Hash.Chain.{Lawful, Good, value_of}
use fth.Hash.Valid.{IsValid, lookup}
use fth.Hash.Lookup.{hash_key_to_val-lt}
use fth.Hash.Fresh.{make_hash-Empty}
use fth.Hash.Entries.{flat, entries, fold, flat-Apart, flat-inside, entries-Lists}
use fth.Hash.Each.{hash_each-fold}
use fth.Hash.Fill.{or_else, fold-Filled}
use fth.Hash.Images.{
  imaged, length-imaged, imaged-flat, fold-imaged, Faithful, imaged-Good, Present-flat,
}

or_else-none {ℓ} : {A : Type ℓ} (o : Option A) → or_else o none ≡ o
or_else-none none = refl
or_else-none (some x) = refl

made_size {ℓ} : (A : Type ℓ) (n : ℕ) → 0 < n → (make_hash {A = A} (pos n)).hash_size ≡ n
unfolding make_hash sound_size
made_size A n h = ground arith

module _ {ℓ} {A : Type ℓ} (K : Keys A) (g : A → A) (w : A → A → A) where
  -- What the loop of `map` or `copy` makes: a value for each key that had one.
  pub record Images (h h' : FHash A) : Type ℓ where
    pub valid : IsValid K h'
    pub counts : h'.length ≡ h.length
    pub same_size : h'.hash_size ≡ h.hash_size
    pub looks :
        (k : A)
        → lookup K h' k ≡ value_of K k (imaged K g w (h.buckets.cell (hash_key_to_val K h k)))

  pub rebuilt :
      (h : FHash A)
      → Lawful K
      → Faithful K g w
      → IsValid K h
      → (h' : FHash A) × (hash_each K
            (λ key value hs. put_round K (g key) (w key value) hs)
            h
            (make_hash (pos h.hash_size))
          ≡ ok h')
        × Images h h'
  rebuilt h L F v =
      let good : (j : ℕ)
          → j < 0 + h.hash_size
          → Good K h.hash_size j (imaged K g w (h.buckets.cell j)) =
        λ j lt. imaged-Good K g w L F h.hash_size j (h.buckets.cell j) (v.good j (omega arith)) in
      let images : ℕ → List (FItem A) = λ j. imaged K g w (h.buckets.cell j) in
      let fresh = make_hash-Empty K (pos h.hash_size) in
      let (h', run, f) =
        fold-Filled K (flat images 0 h.hash_size) (make_hash (pos h.hash_size)) L fresh.valid
          (Present-flat K g w h.hash_size images 0 h.hash_size good)
          (flat-Apart K L h.hash_size images 0 h.hash_size good) (λ k. inl (fresh.none_there k)) in
      (
        h',
        hash_each-fold K (λ key value hs. put_round K (g key) (w key value) hs) h
              (make_hash (pos h.hash_size)) v
            ∙ fold-imaged K g w (entries h) (make_hash (pos h.hash_size))
            ∙ ap (λ l. fold (put_round K) l (make_hash (pos h.hash_size)))
                (imaged-flat K g w h.buckets.cell 0 h.hash_size)
            ∙ run,
        record {
          valid = f.valid;
          counts =
              f.counts
              ∙ omega (
                arith,
                fresh.no_length,
                ap length (imaged-flat K g w h.buckets.cell 0 h.hash_size),
                length-imaged K g w (entries h),
                (entries-Lists K h L v).0,
              );
          same_size = f.same_size ∙ made_size A h.hash_size v.filled;
          looks = λ k.
              f.looks k
              ∙ ap₂ or_else
                  (flat-inside K L h.hash_size images 0 h.hash_size k good (omega arith)
                    (omega (arith, hash_key_to_val-lt K h k v)))
                  (fresh.none_there k)
              ∙ or_else-none (value_of K k (images (hash_key_to_val K h k)));
        },
      )
