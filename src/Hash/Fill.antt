-- ===== src/Hash/Fill.antt =====
-- The loops of src/hash.c that fill a hash by fth_hash_set.
use fth.Base.{
  ℕ, ◌+◌, ◌≡◌, refl, ap, ◌∙◌, ◌⊎◌, inl, inr, true, List, [], ◌∷◌, Option, none, some, if◌then◌else◌,
  arith, Bool-cases, ok, ◌>>=◌, length,
}
use fth.Hash.{Keys, FItem, FHash, hash_set}
use fth.Hash.Loops.{put_round}
use fth.Hash.Chain.{Lawful, value_of, value_of-equal}
use fth.Hash.Valid.{is_some, IsValid, lookup}
use fth.Hash.Update.{Puts, hash_set-Puts}
use fth.Hash.Entries.{fold, Apart}

-- the first value that there is
abbrev pub or_else {ℓ} : {A : Type ℓ} → Option A → Option A → Option A
or_else none o = o
or_else (some x) o = some x

module _ {ℓ} {A : Type ℓ} (K : Keys A) where
  -- No key is the null cell.
  abbrev pub Present : List (FItem A) → Type 0
  Present [] = Unit
  Present (e ∷ rest) = (K.is_key e.key ≡ true) × Present rest

  pub put_round-Puts :
      (key value : A) (h : FHash A)
      → Lawful K
      → IsValid K h
      → K.is_key key ≡ true
      → (h' : FHash A) × (put_round K key value h ≡ ok h') × Puts K key value h h'
  unfolding put_round
  put_round-Puts key value h L v is =
      let (returns, puts) = hash_set-Puts K key value h L v is in
      ((hash_set K key value h).1, rw (returns, put_round) refl, puts)

  -- What a loop of `set` over `items` makes of a hash that has none of their keys.
  pub record Filled (items : List (FItem A)) (h h' : FHash A) : Type ℓ where
    pub valid : IsValid K h'
    pub looks : (k : A) → lookup K h' k ≡ or_else (value_of K k items) (lookup K h k)
    pub same_size : h'.hash_size ≡ h.hash_size
    pub counts : h'.length ≡ h.length + length items

  -- No key is both in the hash and among the items.
  abbrev pub Disjoint : FHash A → List (FItem A) → Type ℓ
  Disjoint h items = (k : A) → (lookup K h k ≡ none) ⊎ (value_of K k items ≡ none)

  head_missing :
      (e : FItem A) (items : List (FItem A)) (h : FHash A)
      → Lawful K
      → Disjoint h (e ∷ items)
      → lookup K h e.key ≡ none
  head_missing e items h L d = elim (d e.key) [
    | inl missing ↦ missing
    | inr missing ↦ cc (missing, L.refl_of e.key)
  ]

  Disjoint-put_round :
      (e : FItem A) (items : List (FItem A)) (h h' : FHash A)
      → Lawful K
      → Disjoint h (e ∷ items)
      → value_of K e.key items ≡ none
      → Puts K e.key e.value h h'
      → Disjoint h' items
  Disjoint-put_round e items h h' L d apart p k = elim (Bool-cases (K.equal k e.key)) [
    | inl t ↦ inr (value_of-equal K L k e.key items t ∙ apart)
    | inr f ↦ elim (d k) [
      | inl missing ↦ inl (p.looks k ∙ rw f missing)
      | inr missing ↦ inr (rw f at missing)
    ]
  ]

  looks_both :
      (e : FItem A) (items : List (FItem A)) (h : FHash A) (k : A)
      → Lawful K
      → value_of K e.key items ≡ none
      → or_else (value_of K k items) (if K.equal k e.key then some e.value else lookup K h k)
        ≡ or_else (value_of K k (e ∷ items)) (lookup K h k)
  looks_both e items h k L apart = elim (Bool-cases (K.equal k e.key)) [
    | inl t ↦ rw (t, value_of-equal K L k e.key items t, apart)
    | inr f ↦ rw f
  ]

  pub fold-Filled :
      (items : List (FItem A)) (h : FHash A)
      → Lawful K
      → IsValid K h
      → Present items
      → Apart K items
      → Disjoint h items
      → (h' : FHash A) × (fold (put_round K) items h ≡ ok h') × Filled items h h'
  fold-Filled [] h L v is apart d =
      (h, refl, record { valid = v; looks = λ k. refl; same_size = refl; counts = omega arith })
  fold-Filled (e ∷ items) h L v (is, others) (apart, rest) d =
      let (h₁, run, p) = put_round-Puts e.key e.value h L v is in
      let (h', onward, f) =
        fold-Filled items h₁ L p.valid others rest (Disjoint-put_round e items h h₁ L d apart p) in
      (
        h',
        ap (λ o. o >>= fold (put_round K) items) run ∙ onward,
        record {
          valid = f.valid;
          looks = λ k.
              f.looks k
              ∙ ap (or_else (value_of K k items)) (p.looks k)
              ∙ looks_both e items h k L apart;
          same_size = f.same_size ∙ p.same_size;
          counts = omega (
            arith,
            f.counts,
            p.counts ∙ one_more h.length (lookup K h e.key) (head_missing e items h L d),
          );
        },
      )
    where
      one_more : (n : ℕ) (o : Option A) → o ≡ none → (if is_some o then n else n + 1) ≡ n + 1
      one_more n o missing = rw missing
