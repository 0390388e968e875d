-- ===== src/Hash/Images.antt =====
-- The items that fth_hash_map and fth_hash_copy of src/hash.c put into the new hash.
use fth.Base.{
  ℕ, zero, suc, ◌+◌, ◌%◌, ◌<◌, ◌≡◌, refl, sym, ap, ◌∙◌, inl, inr, true, false, List, [], ◌∷◌, ◌++◌,
  none, arith, Bool-cases, length, bind_congr,
}
use fth.Hash.{Keys, FItem, FHash}
use fth.Hash.Loops.{put_round}
use fth.Hash.Chain.{Lawful, Good, value_of, value_of-equal, equal-congr_right}
use fth.Hash.Entries.{flat, fold}
use fth.Hash.Fill.{Present}

-- A new key for each key, and a new value for each pair.
module _ {ℓ} {A : Type ℓ} (K : Keys A) (g : A → A) (w : A → A → A) where
  abbrev pub imaged : List (FItem A) → List (FItem A)
  imaged [] = []
  imaged (e ∷ rest) = record { key = g e.key; value = w e.key e.value } ∷ imaged rest

  pub length-imaged : (xs : List (FItem A)) → length (imaged xs) ≡ length xs
  length-imaged [] = refl
  length-imaged (x ∷ xs) = ap suc (length-imaged xs)

  pub imaged-append : (xs ys : List (FItem A)) → imaged (xs ++ ys) ≡ imaged xs ++ imaged ys
  imaged-append [] ys = refl
  imaged-append (x ∷ xs) ys =
      ap (λ l. record { key = g x.key; value = w x.key x.value } ∷ l) (imaged-append xs ys)

  pub imaged-flat :
      (f : ℕ → List (FItem A)) (i n : ℕ) → imaged (flat f i n) ≡ flat (λ j. imaged (f j)) i n
  imaged-flat f i zero = refl
  imaged-flat f i (suc n) =
      imaged-append (f i) (flat f (suc i) n) ∙ ap (λ l. imaged (f i) ++ l) (imaged-flat f (suc i) n)

  pub fold-imaged :
      (xs : List (FItem A)) (h : FHash A)
      → fold (λ key value hs. put_round K (g key) (w key value) hs) xs h
        ≡ fold (put_round K) (imaged xs) h
  fold-imaged [] h = refl
  fold-imaged (x ∷ xs) h =
      bind_congr (put_round K (g x.key) (w x.key x.value) h)
        (fold (λ key value hs. put_round K (g key) (w key value) hs) xs)
        (fold (put_round K) (imaged xs)) (λ s. fold-imaged xs s)

  -- The new key is equal to the key it stands for, and is not the null cell either.
  pub record Faithful : Type ℓ where
    pub same : (k : A) → K.equal k (g k) ≡ true
    pub keeps : (k : A) → K.is_key k ≡ true → K.is_key (g k) ≡ true

  pub value_of-imaged :
      Lawful K
      → Faithful
      → (k : A) (c : List (FItem A)) → value_of K k c ≡ none
      → value_of K k (imaged c) ≡ none
  value_of-imaged L F k [] e = refl
  value_of-imaged L F k (x ∷ c) e = elim (Bool-cases (K.equal k x.key)) [
    | inl t ↦ cc
    | inr f ↦
        let f' : K.equal k (g x.key) ≡ false =
          sym (equal-congr_right K L k x.key (g x.key) (F.same x.key)) ∙ f in
        rw f' (value_of-imaged L F k c (rw f at e))
  ]

  pub imaged-Good :
      Lawful K → Faithful → (n i : ℕ) (c : List (FItem A)) → Good K n i c → Good K n i (imaged c)
  imaged-Good L F n i [] good = tt
  imaged-Good L F n i (x ∷ c) (is, at, apart, rest) = (
    F.keeps x.key is,
    ap (λ d. d % n) (sym (L.hash-equal x.key (g x.key) (F.same x.key))) ∙ at,
    here (value_of-imaged L F x.key c apart),
    imaged-Good L F n i c rest,
  )
    where
      here : value_of K x.key (imaged c) ≡ none → value_of K (g x.key) (imaged c) ≡ none
      here e = sym (value_of-equal K L x.key (g x.key) (imaged c) (F.same x.key)) ∙ e

  Present-Good : (n i : ℕ) (c : List (FItem A)) → Good K n i c → Present K c
  Present-Good n i [] good = tt
  Present-Good n i (x ∷ c) (is, at, apart, rest) = (is, Present-Good n i c rest)

  Present-append : (xs ys : List (FItem A)) → Present K xs → Present K ys → Present K (xs ++ ys)
  Present-append [] ys p q = q
  Present-append (x ∷ xs) ys (is, p) q = (is, Present-append xs ys p q)

  pub Present-flat :
      (n : ℕ) (f : ℕ → List (FItem A)) (i m : ℕ)
      → ((j : ℕ) → j < i + m → Good K n j (f j))
      → Present K (flat f i m)
  Present-flat n f i zero good = tt
  Present-flat n f i (suc m) good =
      Present-append (f i) (flat f (suc i) m) (Present-Good n i (f i) (good i (omega arith)))
        (Present-flat n f (suc i) m (λ j lt. good j (omega arith)))
