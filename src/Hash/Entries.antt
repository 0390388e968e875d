-- ===== src/Hash/Entries.antt =====
-- All items of a hash, in the order of the loops of src/hash.c.
use fth.Base.{
  ℕ, zero, suc, ◌+◌, ◌%◌, ◌<◌, ◌≤◌, ◌≡◌, ◌≢◌, refl, sym, ap, ◌∙◌, ◌⊎◌, inl, inr, false, List, [],
  ◌∷◌, ◌++◌, none, arith, Bool-cases, ◌==◌, ==_iff, Outcome, ok, throw, fault, ◌>>=◌, length,
  length-append,
}
use fth.Hash.{Keys, FItem, FHash}
use fth.Hash.Chain.{Lawful, Good, value_of}
use fth.Hash.Count.{total}
use fth.Hash.Valid.{IsValid, lookup}
use fth.Hash.Lookup.{hash_key_to_val-lt}

-- the items of the `n` buckets from `i` on
abbrev pub flat {ℓ} : {A : Type ℓ} → (ℕ → List A) → ℕ → ℕ → List A
flat f i zero = []
flat f i (suc n) = f i ++ flat f (suc i) n

-- all items, in the order of the loops
abbrev pub entries {ℓ} : {A : Type ℓ} → FHash A → List (FItem A)
entries h = flat h.buckets.cell 0 h.hash_size

-- a function run on the key and the value of each item in turn
abbrev pub fold {ℓ κ} :
    {A : Type ℓ} {S : Type κ} → (A → A → S → Outcome S) → List (FItem A) → S → Outcome S
fold func [] acc = ok acc
fold func (e ∷ rest) acc = func e.key e.value acc >>= fold func rest

pub length-flat {ℓ} :
    {A : Type ℓ} (f : ℕ → List A) (i n : ℕ) → length (flat f i n) + total f i ≡ total f (i + n)
length-flat f i zero = let e : i + 0 ≡ i = omega arith in omega (arith, ap (total f) e)
length-flat f i (suc n) =
    omega
      (arith, length-append (f i) (flat f (suc i) n), length-flat f (suc i) n, ap (total f) here)
  where
    here : suc i + n ≡ i + suc n
    here = omega arith

bind_assoc {ℓ κ μ} :
    {A : Type ℓ} {B : Type κ} {C : Type μ} (o : Outcome A) (f : A → Outcome B) (g : B → Outcome C)
    (fg : A → Outcome C)
    → ((a : A) → fg a ≡ (f a >>= g))
    → (o >>= fg) ≡ ((o >>= f) >>= g)
bind_assoc (ok a) f g fg h = h a
bind_assoc (throw e) f g fg h = refl
bind_assoc fault f g fg h = refl

pub fold-append {ℓ κ} :
    {A : Type ℓ} {S : Type κ} (func : A → A → S → Outcome S) (xs ys : List (FItem A)) (acc : S)
    → fold func (xs ++ ys) acc ≡ (fold func xs acc >>= fold func ys)
fold-append func [] ys acc = refl
fold-append func (e ∷ xs) ys acc =
    bind_assoc (func e.key e.value acc) (fold func xs) (fold func ys) (fold func (xs ++ ys))
      (λ s. fold-append func xs ys s)

module _ {ℓ} {A : Type ℓ} (K : Keys A) where
  -- No two items have equal keys.
  abbrev pub Apart : List (FItem A) → Type ℓ
  Apart [] = Unit
  Apart (e ∷ rest) = (value_of K e.key rest ≡ none) × Apart rest

  pub value_of-append :
      (k : A) (xs ys : List (FItem A))
      → value_of K k xs ≡ none
      → value_of K k (xs ++ ys) ≡ value_of K k ys
  value_of-append k [] ys e = refl
  value_of-append k (x ∷ xs) ys e = elim (Bool-cases (K.equal k x.key)) [
    | inl t ↦ cc
    | inr f ↦ rw f (value_of-append k xs ys (here f))
  ]
    where
      here : K.equal k x.key ≡ false → value_of K k xs ≡ none
      here f = rw f at e

  value_of-append_some :
      (k : A) (xs ys : List (FItem A))
      → value_of K k ys ≡ none
      → value_of K k (xs ++ ys) ≡ value_of K k xs
  value_of-append_some k [] ys e = e
  value_of-append_some k (x ∷ xs) ys e = rw (value_of-append_some k xs ys e)

  -- A bucket has no value for the keys of the others.
  foreign :
      Lawful K
      → (n i : ℕ) (k : A) (c : List (FItem A)) → Good K n i c
      → K.hash_id k % n ≢ i
      → value_of K k c ≡ none
  foreign L n i k [] g ne = refl
  foreign L n i k (x ∷ c) (is, at, apart, rest) ne = elim (Bool-cases (K.equal k x.key)) [
    | inl t ↦ absurd (ne (ap (λ d. d % n) (L.hash-equal k x.key t) ∙ at))
    | inr f ↦ rw f (foreign L n i k c rest ne)
  ]

  flat-outside :
      Lawful K
      → (size : ℕ) (f : ℕ → List (FItem A)) (i n : ℕ) (k : A)
      → ((j : ℕ) → j < i + n → Good K size j (f j))
      → (K.hash_id k % size < i) ⊎ (i + n ≤ K.hash_id k % size)
      → value_of K k (flat f i n) ≡ none
  flat-outside L size f i zero k g out = refl
  flat-outside L size f i (suc n) k g out =
      value_of-append k (f i) (flat f (suc i) n)
        (foreign L size i k (f i) (g i (omega arith)) (omega (arith, out)))
      ∙ flat-outside L size f (suc i) n k (λ j lt. g j (omega arith)) (omega (arith, out))

  pub flat-inside :
      Lawful K
      → (size : ℕ) (f : ℕ → List (FItem A)) (i n : ℕ) (k : A)
      → ((j : ℕ) → j < i + n → Good K size j (f j))
      → i ≤ K.hash_id k % size
      → K.hash_id k % size < i + n
      → value_of K k (flat f i n) ≡ value_of K k (f (K.hash_id k % size))
  flat-inside L size f i zero k g low high = absurd (omega arith)
  flat-inside L size f i (suc n) k g low high = elim (Bool-cases (K.hash_id k % size == i)) [
    | inl t ↦
        value_of-append_some k (f i) (flat f (suc i) n) (
          flat-outside L size f (suc i) n k (λ j lt. g j (omega arith))
            (inl (omega (arith, (==_iff (K.hash_id k % size) i).0 t))))
        ∙ ap (λ j. value_of K k (f j)) (sym ((==_iff (K.hash_id k % size) i).0 t))
    | inr ne ↦
        let apart : K.hash_id k % size ≢ i = ground arith in
        value_of-append k (f i) (flat f (suc i) n)
          (foreign L size i k (f i) (g i (omega arith)) apart)
        ∙ flat-inside L size f (suc i) n k (λ j lt. g j (omega arith)) (omega arith) (omega arith)
  ]

  append-Apart :
      (size i : ℕ) (xs ys : List (FItem A))
      → Good K size i xs
      → Apart ys
      → ((k : A) → K.hash_id k % size ≡ i → value_of K k ys ≡ none)
      → Apart (xs ++ ys)
  append-Apart size i [] ys g d h = d
  append-Apart size i (x ∷ xs) ys (is, at, apart, rest) d h =
      (value_of-append x.key xs ys apart ∙ h x.key at, append-Apart size i xs ys rest d h)

  pub flat-Apart :
      Lawful K
      → (size : ℕ) (f : ℕ → List (FItem A)) (i n : ℕ) → ((j : ℕ) → j < i + n → Good K size j (f j))
      → Apart (flat f i n)
  flat-Apart L size f i zero g = tt
  flat-Apart L size f i (suc n) g =
      append-Apart size i (f i) (flat f (suc i) n) (g i (omega arith))
        (flat-Apart L size f (suc i) n (λ j lt. g j (omega arith)))
        (λ k at. flat-outside L size f (suc i) n k (λ j lt. g j (omega arith)) (inl (omega arith)))

  -- The items of a valid hash: as many as its length, none with a key equal to another's, and with
  -- the values that the hash has for its keys.
  pub entries-Lists :
      (h : FHash A)
      → Lawful K
      → IsValid K h
      → (length (entries h) ≡ h.length)
        × Apart (entries h)
        × ((k : A) → value_of K k (entries h) ≡ lookup K h k)
  entries-Lists h L v = (
    omega (arith, length-flat h.buckets.cell 0 h.hash_size, v.counted, all_buckets),
    flat-Apart L h.hash_size h.buckets.cell 0 h.hash_size (λ j lt. v.good j (omega arith)),
    λ k.
        flat-inside L h.hash_size h.buckets.cell 0 h.hash_size k (λ j lt. v.good j (omega arith))
          (omega arith) (omega (arith, hash_key_to_val-lt K h k v)),
  )
    where
      from_zero : 0 + h.hash_size ≡ h.hash_size
      from_zero = omega arith

      all_buckets : total h.buckets.cell (0 + h.hash_size) ≡ total h.buckets.cell h.hash_size
      all_buckets = ap (total h.buckets.cell) from_zero
