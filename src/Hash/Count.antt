-- ===== src/Hash/Count.antt =====
-- The number of items in the buckets of a hash.
use fth.Base.{
  ℕ, zero, suc, ◌+◌, ◌≤◌, ◌<◌, ◌≡◌, ◌∙◌, refl, inl, inr, List, [], ◌∷◌, arith, length, ◌==◌, ap,
  ==_iff, Bool-cases,
}
use fth.Memory.{update}

module _ {ℓ} {A : Type ℓ} where
  -- the items of the buckets below `n`
  abbrev pub total : (ℕ → List A) → ℕ → ℕ
  total f zero = 0
  total f (suc n) = total f n + length (f n)

  pub total_empty : (f : ℕ → List A) (n : ℕ) → ((i : ℕ) → i < n → f i ≡ []) → total f n ≡ 0
  total_empty f zero h = refl
  total_empty f (suc n) h =
      omega (arith, total_empty f n (λ i lt. h i (omega arith)), ap length (h n (omega arith)))

  total-update_above :
      (f : ℕ → List A) (i : ℕ) (c : List A) (n : ℕ) → n ≤ i → total (update f i c) n ≡ total f n
  total-update_above f i c zero h = refl
  total-update_above f i c (suc n) h = ground (arith, total-update_above f i c n)

  -- A bucket that changes changes the number by as much.
  pub total-update :
      (f : ℕ → List A) (i : ℕ) (c : List A) (n : ℕ)
      → i < n
      → total (update f i c) n + length (f i) ≡ total f n + length c
  total-update f i c zero h = absurd (omega arith)
  total-update f i c (suc n) h = elim (Bool-cases (n == i)) [
    | inl t ↦
        let same : n ≡ i = (==_iff n i).0 t in
        rw (t) (
          omega
            (arith, total-update_above f i c n (omega (arith, same)), ap (λ k. length (f k)) same))
    | inr f' ↦
        let apart : i < n = ground arith in rw (f') (omega (arith, total-update f i c n apart))
  ]

  pub total-zero : (f : ℕ → List A) (n : ℕ) → total f n ≡ 0 → (i : ℕ) → i < n → f i ≡ []
  total-zero f zero e i h = absurd (omega arith)
  total-zero f (suc n) e i h = elim (Bool-cases (i == n)) [
    | inl t ↦ let same : i ≡ n = (==_iff i n).0 t in ap f same ∙ empty (f n) (omega (arith, e))
    | inr f' ↦ total-zero f n (omega (arith, e)) i (ground arith)
  ]
    where
      empty : (c : List A) → length c ≡ 0 → c ≡ []
      empty [] e = refl
      empty (x ∷ c) e = absurd (omega arith)
