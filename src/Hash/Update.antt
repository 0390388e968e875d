-- ===== src/Hash/Update.antt =====
-- fth_hash_set of src/hash.c.
use fth.Base.{
  ℕ, ◌+◌, ◌%◌, ◌<◌, ◌≡◌, refl, sym, ap, ◌∙◌, inl, inr, true, List, Option, none, some,
  if◌then◌else◌, arith, Bool-cases, ok, length, ◌==◌, ==_iff,
}
use fth.Memory.{update}
use fth.Memory.Writes.{store-in}
use fth.Hash.{Keys, FItem, FHash, overwrite, hash_key_to_val, hash_set, make_item}
use fth.Hash.Chain.{Lawful, Good, value_of, overwrite-cases, Written, make_item-Good}
use fth.Hash.Count.{total-update}
use fth.Hash.Valid.{is_some, IsValid, lookup}
use fth.Hash.Lookup.{hash_key_to_val-lt, load_bucket}

module _ {ℓ} {A : Type ℓ} (K : Keys A) where
  -- the hash with the chain `c` for its bucket `i`, and `n` items
  abbrev pub with_chain : FHash A → ℕ → List (FItem A) → ℕ → FHash A
  with_chain h i c n = record h {
    buckets = record h.buckets { cell = update h.buckets.cell i c };
    length = n;
    changed_p = true;
  }

  pub with_chain-IsValid :
      (h : FHash A) (i : ℕ) (c : List (FItem A)) (n : ℕ)
      → IsValid K h
      → i < h.hash_size
      → Good K h.hash_size i c
      → n + length (h.buckets.cell i) ≡ h.length + length c
      → IsValid K (with_chain h i c n)
  with_chain-IsValid h i c n v lt g e = record {
    sized = v.sized;
    filled = v.filled;
    good = λ j below. elim (Bool-cases (j == i)) [
      | inl t ↦ rw (t, (==_iff j i).0 t) g
      | inr f ↦ rw f (v.good j below)
    ];
    counted = omega (arith, e, v.counted, total-update h.buckets.cell i c h.hash_size lt);
  }

  -- A key looks where the chain of its bucket says, whether or not that chain has changed.
  pub lookup-with_chain :
      (h : FHash A) (key : A) (c : List (FItem A)) (n : ℕ) (o : Option A)
      → Lawful K
      → ((k : A)
          → value_of K k c ≡ (
              if K.equal k key then o else value_of K k (h.buckets.cell (hash_key_to_val K h key))))
      → (k : A)
      → lookup K (with_chain h (hash_key_to_val K h key) c n) k
        ≡ (if K.equal k key then o else lookup K h k)
  lookup-with_chain h key c n o L looks k =
      elim (Bool-cases (hash_key_to_val K h k == hash_key_to_val K h key)) [
        | inl t ↦ rw t (
            looks k
            ∙ ap (λ i. if K.equal k key then o else value_of K k (h.buckets.cell i))
                (sym ((==_iff _ _).0 t)))
        | inr f ↦ elim (Bool-cases (K.equal k key)) [
          | inl t ↦ cc (
            f,
            (==_iff (hash_key_to_val K h k) (hash_key_to_val K h key)).1
                (ap (λ d. d % h.hash_size) (L.hash-equal k key t)),
          )
          | inr g ↦ rw (f, g)
        ]
      ]

  -- What `set` promises: the hash has the value for the key and all equal to it, what it had for
  -- every other, and one item more only where it had none for the key.
  pub record Puts (key value : A) (h h' : FHash A) : Type ℓ where
    pub valid : IsValid K h'
    pub looks : (k : A) → lookup K h' k ≡ (if K.equal k key then some value else lookup K h k)
    pub same_size : h'.hash_size ≡ h.hash_size
    pub counts : h'.length ≡ (if is_some (lookup K h key) then h.length else h.length + 1)

  set_over :
      (key value : A) (h : FHash A) (c : List (FItem A))
      → IsValid K h
      → overwrite K key value (h.buckets.cell (hash_key_to_val K h key)) ≡ some c
      → hash_set K key value h ≡ (ok tt, with_chain h (hash_key_to_val K h key) c h.length)
  unfolding hash_set
  set_over key value h c v run =
      let lt = hash_key_to_val-lt K h key v in
      rw (
        load_bucket K h key v,
        run,
        store-in h.buckets (hash_key_to_val K h key) c (omega (arith, lt, v.sized)),
        hash_set,
      )

  set_new :
      (key value : A) (h : FHash A)
      → IsValid K h
      → overwrite K key value (h.buckets.cell (hash_key_to_val K h key)) ≡ none
      → hash_set K key value h ≡ (
        ok tt,
        with_chain h
            (hash_key_to_val K h key)
            (make_item (h.buckets.cell (hash_key_to_val K h key)) key value)
            (h.length + 1),
      )
  unfolding hash_set
  set_new key value h v run =
      let i = hash_key_to_val K h key in
      let lt = hash_key_to_val-lt K h key v in
      rw (
        load_bucket K h key v,
        run,
        store-in h.buckets i (make_item (h.buckets.cell i) key value) (omega (arith, lt, v.sized)),
        hash_set,
      )

  over-Puts :
      (key value : A) (h : FHash A) (c : List (FItem A))
      → Lawful K
      → IsValid K h
      → Written K h.hash_size
          (hash_key_to_val K h key)
          key
          value
          (h.buckets.cell (hash_key_to_val K h key))
          c
      → Puts key value h (with_chain h (hash_key_to_val K h key) c h.length)
  over-Puts key value h c L v w = record {
    valid =
        with_chain-IsValid h (hash_key_to_val K h key) c h.length v (hash_key_to_val-lt K h key v)
          w.good (omega (arith, w.same_length));
    looks = lookup-with_chain h key c h.length (some value) L w.looks;
    same_size = refl;
    counts = there (lookup K h key) refl;
  }
    where
      there :
          (o : Option A)
          → lookup K h key ≡ o
          → h.length ≡ (if is_some (lookup K h key) then h.length else h.length + 1)
      there none e = absurd (w.found e)
      there (some x) e = rw e

  new-Puts :
      (key value : A) (h : FHash A)
      → Lawful K
      → IsValid K h
      → K.is_key key ≡ true
      → lookup K h key ≡ none
      → Puts key value h (
          with_chain h
            (hash_key_to_val K h key)
            (make_item (h.buckets.cell (hash_key_to_val K h key)) key value)
            (h.length + 1))
  unfolding make_item
  new-Puts key value h L v is missing =
      let i = hash_key_to_val K h key in
      let lt = hash_key_to_val-lt K h key v in
      record {
        valid =
            with_chain-IsValid h i (make_item (h.buckets.cell i) key value) (h.length + 1) v lt
              (make_item-Good K h.hash_size i key value (h.buckets.cell i) (v.good i lt) is refl
                missing)
              (omega arith);
        looks =
            lookup-with_chain h key (make_item (h.buckets.cell i) key value) (h.length + 1)
              (some value) L (λ k. refl);
        same_size = refl;
        counts = rw missing;
      }

  -- On a valid hash `hash_set` with a key that is not the null cell returns; the hash it leaves is
  -- valid, has the value for the key, has for all keys not equal to it what it had, and is longer by
  -- one exactly where the hash had no value for the key.
  pub hash_set-Puts :
      (key value : A) (h : FHash A)
      → Lawful K
      → IsValid K h
      → K.is_key key ≡ true
      → ((hash_set K key value h).0 ≡ ok tt) × Puts key value h (hash_set K key value h).1
  hash_set-Puts key value h L v is =
      let i = hash_key_to_val K h key in
      let c = h.buckets.cell i in
      elim (overwrite-cases K h.hash_size i key value c L
        (v.good i (hash_key_to_val-lt K h key v))) [
          | inl (c', run, w) ↦
              rw (set_over key value h c' v run) (refl, over-Puts key value h c' L v w)
          | inr (run, missing) ↦
              rw (set_new key value h v run) (refl, new-Puts key value h L v is missing)
        ]
