-- ===== src/Hash/Chain.antt =====
-- The loops over one chain: what they find afterwards.
use fth.Base.{
  ℕ, suc, ◌%◌, ◌≡◌, ◌≢◌, refl, sym, ap, ◌∙◌, ◌⊎◌, inl, inr, Bool, true, false, if◌then◌else◌, List,
  [], ◌∷◌, Option, none, some, arith, Bool-cases, length,
}
use fth.Hash.{Keys, FItem, make_item, find_entry, overwrite, unlink}

-- What the library documents of `equal` and `hash_id`.
pub record Lawful {ℓ} {A : Type ℓ} (K : Keys A) : Type ℓ where
  pub refl_of : (a : A) → K.equal a a ≡ true
  pub sym_of : (a b : A) → K.equal a b ≡ true → K.equal b a ≡ true
  pub trans_of : (a b c : A) → K.equal a b ≡ true → K.equal b c ≡ true → K.equal a c ≡ true
  pub hash-equal : (a b : A) → K.equal a b ≡ true → K.hash_id a ≡ K.hash_id b

if-twice {ℓ} :
    {A : Type ℓ} (p : Bool) (a b r : A)
    → (if p then a else r) ≡ (if p then a else if p then b else r)
if-twice true a b r = refl
if-twice false a b r = refl

if-swap {ℓ} :
    {A : Type ℓ} (p q : Bool) (a b r : A)
    → (p ≡ false) ⊎ (q ≡ false)
    → (if p then a else if q then b else r) ≡ (if q then b else if p then a else r)
if-swap true true a b r (inl f) = cc
if-swap true true a b r (inr f) = cc
if-swap true false a b r h = refl
if-swap false q a b r h = refl

module _ {ℓ} {A : Type ℓ} (K : Keys A) where
  -- the value that a chain has for a key
  abbrev pub value_of : A → List (FItem A) → Option A
  value_of key [] = none
  value_of key (e ∷ rest) = if K.equal key e.key then some e.value else value_of key rest

  -- No item has the null key, all belong to the bucket `i` of `n`, and no two have equal keys.
  abbrev pub Good : ℕ → ℕ → List (FItem A) → Type ℓ
  Good n i [] = Unit
  Good n i (e ∷ rest) =
      (K.is_key e.key ≡ true)
      × (K.hash_id e.key % n ≡ i)
      × (value_of e.key rest ≡ none)
      × Good n i rest

  pub equal-congr : Lawful K → (a b c : A) → K.equal a b ≡ true → K.equal a c ≡ K.equal b c
  equal-congr L a b c e = elim (Bool-cases (K.equal a c)) [
    | inl t ↦ t ∙ sym (L.trans_of b a c (L.sym_of a b e) t)
    | inr f ↦ elim (Bool-cases (K.equal b c)) [
      | inl t ↦ cc (L.trans_of a b c e t)
      | inr g ↦ f ∙ sym g
    ]
  ]

  pub equal-congr_right : Lawful K → (k a b : A) → K.equal a b ≡ true → K.equal k a ≡ K.equal k b
  equal-congr_right L k a b e = elim (Bool-cases (K.equal k a)) [
    | inl t ↦ t ∙ sym (L.trans_of k a b t e)
    | inr f ↦ elim (Bool-cases (K.equal k b)) [
      | inl t ↦ cc (L.trans_of k b a t (L.sym_of a b e))
      | inr g ↦ f ∙ sym g
    ]
  ]

  pub other_way : Lawful K → (a b : A) → K.equal a b ≡ false → K.equal b a ≡ false
  other_way L a b f = elim (Bool-cases (K.equal b a)) [ inl t ↦ cc (L.sym_of b a t) | inr g ↦ g ]

  not_both :
      Lawful K → (k a b : A) → K.equal a b ≡ false → (K.equal k a ≡ false) ⊎ (K.equal k b ≡ false)
  not_both L k a b f = elim (Bool-cases (K.equal k a)) [
    | inl t ↦ inr (equal-congr L k a b t ∙ f)
    | inr g ↦ inl g
  ]

  pub value_of-equal :
      Lawful K → (a b : A) (c : List (FItem A)) → K.equal a b ≡ true → value_of a c ≡ value_of b c
  value_of-equal L a b [] e = refl
  value_of-equal L a b (x ∷ c) e = rw (equal-congr L a b x.key e, value_of-equal L a b c e)

  -- `find_entry` finds the value, with a stored key that is equal to the one asked for.
  pub find_entry-cases :
      (n i : ℕ) (key : A) (c : List (FItem A))
      → Good n i c
      → ((e : FItem A) × (find_entry K key c ≡ some e)
          × (K.equal key e.key ≡ true)
          × (value_of key c ≡ some e.value))
        ⊎ ((find_entry K key c ≡ none) × (value_of key c ≡ none))
  unfolding find_entry
  find_entry-cases n i key [] g = inr (refl, refl)
  find_entry-cases n i key (x ∷ c) (is, at, apart, rest) = elim (Bool-cases (K.equal key x.key)) [
    | inl t ↦ inl (x, rw (is, t), t, rw t)
    | inr f ↦ rw (is, f) (find_entry-cases n i key c rest)
  ]

  -- What the loop of `set` leaves where it overwrites.
  pub record Written (n i : ℕ) (key value : A) (c c' : List (FItem A)) : Type ℓ where
    pub found : value_of key c ≢ none
    pub looks : (k : A) → value_of k c' ≡ (if K.equal k key then some value else value_of k c)
    pub good : Good n i c'
    pub same_length : length c' ≡ length c

  overwrite-head :
      (n i : ℕ) (key value : A) (x : FItem A) (c : List (FItem A))
      → Lawful K
      → Good n i (x ∷ c)
      → K.equal key x.key ≡ true
      → Written n i key value (x ∷ c) (record x { value = value } ∷ c)
  overwrite-head n i key value x c L (is, at, apart, rest) t = record {
    found = λ missing. cc;
    looks = λ k. rw (equal-congr_right L k key x.key t) (if-twice (K.equal k x.key) _ _ _);
    good = (is, at, apart, rest);
    same_length = refl;
  }

  overwrite-tail :
      (n i : ℕ) (key value : A) (x : FItem A) (c c' : List (FItem A))
      → Lawful K
      → Good n i (x ∷ c)
      → K.equal key x.key ≡ false
      → Written n i key value c c'
      → Written n i key value (x ∷ c) (x ∷ c')
  overwrite-tail n i key value x c c' L (is, at, apart, rest) f w = record {
    found = λ missing. w.found (here missing);
    looks = λ k.
        ap (λ o. if K.equal k x.key then some x.value else o) (w.looks k)
        ∙ if-swap (K.equal k x.key) (K.equal k key) _ _ _
            (not_both L k x.key key (other_way L key x.key f));
    good = (is, at, w.looks x.key ∙ rw (other_way L key x.key f) apart, w.good);
    same_length = omega (arith, w.same_length);
  }
    where
      here : value_of key (x ∷ c) ≡ none → value_of key c ≡ none
      here missing = rw f at missing

  -- `overwrite` rewrites the one item with the key, or else the chain has no such item.
  pub overwrite-cases :
      (n i : ℕ) (key value : A) (c : List (FItem A))
      → Lawful K
      → Good n i c
      → ((c' : List (FItem A)) × (overwrite K key value c ≡ some c') × Written n i key value c c')
        ⊎ ((overwrite K key value c ≡ none) × (value_of key c ≡ none))
  unfolding overwrite
  overwrite-cases n i key value [] L g = inr (refl, refl)
  overwrite-cases n i key value (x ∷ c) L (is, at, apart, rest) =
      elim (Bool-cases (K.equal key x.key)) [
        | inl t ↦ inl (_, rw (is, t), overwrite-head n i key value x c L (is, at, apart, rest) t)
        | inr f ↦ elim (overwrite-cases n i key value c L rest) [
          | inl (c', run, w) ↦ inl (
            x ∷ c',
            rw (is, f, run),
            overwrite-tail n i key value x c c' L (is, at, apart, rest) f w,
          )
          | inr (run, missing) ↦ inr (rw (is, f, run), rw (f, missing))
        ]
      ]

  -- A new item in front of a chain without its key.
  pub make_item-Good :
      (n i : ℕ) (key value : A) (c : List (FItem A))
      → Good n i c
      → K.is_key key ≡ true
      → K.hash_id key % n ≡ i
      → value_of key c ≡ none
      → Good n i (make_item c key value)
  unfolding make_item
  make_item-Good n i key value c g is at missing = (is, at, missing, g)

  -- What the loop of `delete` leaves where it takes an item out.
  pub record Unlinked (n i : ℕ) (key : A) (c : List (FItem A)) (e : FItem A) (c' : List (FItem A))
      : Type ℓ where
    pub its_key : K.equal key e.key ≡ true
    pub its_value : value_of key c ≡ some e.value
    pub looks : (k : A) → value_of k c' ≡ (if K.equal k key then none else value_of k c)
    pub good : Good n i c'
    pub shorter : suc (length c') ≡ length c

  unlink-head :
      (n i : ℕ) (key : A) (x : FItem A) (c : List (FItem A))
      → Lawful K
      → Good n i (x ∷ c)
      → K.equal key x.key ≡ true
      → Unlinked n i key (x ∷ c) x c
  unlink-head n i key x c L (is, at, apart, rest) t = record {
    its_key = t;
    its_value = rw t;
    looks = λ k. rw (equal-congr_right L k key x.key t) (gone k (Bool-cases (K.equal k x.key)));
    good = rest;
    shorter = refl;
  }
    where
      gone :
          (k : A)
          → (K.equal k x.key ≡ true) ⊎ (K.equal k x.key ≡ false)
          → value_of k c ≡ (if K.equal k x.key then none else value_of k (x ∷ c))
      gone k (inl t) = rw t (value_of-equal L k x.key c t ∙ apart)
      gone k (inr f) = rw f

  unlink-tail :
      (n i : ℕ) (key : A) (x : FItem A) (c : List (FItem A)) (e : FItem A) (c' : List (FItem A))
      → Lawful K
      → Good n i (x ∷ c)
      → K.equal key x.key ≡ false
      → Unlinked n i key c e c'
      → Unlinked n i key (x ∷ c) e (x ∷ c')
  unlink-tail n i key x c e c' L (is, at, apart, rest) f w = record {
    its_key = w.its_key;
    its_value = rw f w.its_value;
    looks = λ k.
        ap (λ o. if K.equal k x.key then some x.value else o) (w.looks k)
        ∙ if-swap (K.equal k x.key) (K.equal k key) _ _ _
            (not_both L k x.key key (other_way L key x.key f));
    good = (is, at, w.looks x.key ∙ rw (other_way L key x.key f) apart, w.good);
    shorter = omega (arith, w.shorter);
  }

  -- `unlink` takes out the one item with the key, or else the chain has no such item.
  pub unlink-cases :
      (n i : ℕ) (key : A) (c : List (FItem A))
      → Lawful K
      → Good n i c
      → ((e : FItem A) × (c' : List (FItem A)) × (unlink K key c ≡ some (e, c'))
          × Unlinked n i key c e c')
        ⊎ ((unlink K key c ≡ none) × (value_of key c ≡ none))
  unfolding unlink
  unlink-cases n i key [] L g = inr (refl, refl)
  unlink-cases n i key (x ∷ c) L (is, at, apart, rest) = elim (Bool-cases (K.equal key x.key)) [
    | inl t ↦ inl (x, c, rw (is, t), unlink-head n i key x c L (is, at, apart, rest) t)
    | inr f ↦ elim (unlink-cases n i key c L rest) [
      | inl (e, c', run, w) ↦
          inl (e, x ∷ c', rw (is, f, run), unlink-tail n i key x c e c' L (is, at, apart, rest) f w)
      | inr (run, missing) ↦ inr (rw (is, f, run), rw (f, missing))
    ]
  ]
