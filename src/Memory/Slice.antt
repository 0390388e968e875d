-- ===== src/Memory/Slice.antt =====
-- The list that n consecutive cells hold, and what writes and moves make of it.
use fth.Base.{
  ℕ, zero, suc, ◌+◌, ◌-◌, ◌≤◌, ◌<◌, ◌≡◌, refl, ap, ◌∙◌, List, [], ◌∷◌, ◌++◌, map, arith, length,
  take, drop, get_elem?, get_or, replicate, some,
}
use mathlib.Core.Path.{ap₂}

module _ {ℓ} {A : Type ℓ} where
  abbrev pub slice : (ℕ → A) → ℕ → ℕ → List A
  slice f i zero = []
  slice f i (suc n) = f i ∷ slice f (suc i) n

  pub length-slice : (f : ℕ → A) (i n : ℕ) → length (slice f i n) ≡ n
  length-slice f i zero = refl
  length-slice f i (suc n) = ap suc (length-slice f (suc i) n)

  -- Two runs of cells that agree cell by cell hold the same list.
  pub slice_ext :
      (f g : ℕ → A) (i j n : ℕ)
      → ((k : ℕ) → k < n → f (i + k) ≡ g (j + k))
      → slice f i n ≡ slice g j n
  slice_ext f g i j zero h = refl
  slice_ext f g i j (suc n) h =
      ap₂ ◌∷◌ (head_eq (h 0 (omega arith)))
        (slice_ext f g (suc i) (suc j) n (λ k lt. shift k (h (suc k) (omega arith))))
    where
      head_eq : f (i + 0) ≡ g (j + 0) → f i ≡ g j
      head_eq e = ap f (omega arith) ∙ e ∙ ap g (omega arith)

      shift : (k : ℕ) → f (i + suc k) ≡ g (j + suc k) → f (suc i + k) ≡ g (suc j + k)
      shift k e = ap f (omega arith) ∙ e ∙ ap g (omega arith)

  pub slice-append : (f : ℕ → A) (i m n : ℕ) → slice f i (m + n) ≡ slice f i m ++ slice f (i + m) n
  slice-append f i zero n = ap₂ (slice f) (omega arith) (omega arith)
  slice-append f i (suc m) n = slice_suc ∙ ap (λ l. f i ∷ l) (slice-append f (suc i) m n ∙ tail_eq)
    where
      slice_suc : slice f i (suc m + n) ≡ f i ∷ slice f (suc i) (m + n)
      slice_suc = let e : suc m + n ≡ suc (m + n) = omega arith in ap (slice f i) e

      tail_eq :
          slice f (suc i) m ++ slice f (suc i + m) n ≡ slice f (suc i) m ++ slice f (i + suc m) n
      tail_eq = ap (λ k. slice f (suc i) m ++ slice f k n) (omega arith)

  pub slice_snoc : (f : ℕ → A) (i n : ℕ) → slice f i (n + 1) ≡ slice f i n ++ f (i + n) ∷ []
  slice_snoc f i n = slice-append f i n 1

  pub take-slice : (f : ℕ → A) (i m n : ℕ) → m ≤ n → take m (slice f i n) ≡ slice f i m
  take-slice f i zero n h = refl
  take-slice f i (suc m) zero h = absurd (omega arith)
  take-slice f i (suc m) (suc n) h = ap (λ l. f i ∷ l) (take-slice f (suc i) m n (omega arith))

  pub drop-slice : (f : ℕ → A) (i m n : ℕ) → m ≤ n → drop m (slice f i n) ≡ slice f (i + m) (n - m)
  drop-slice f i zero n h = ap₂ (slice f) (omega arith) (omega arith)
  drop-slice f i (suc m) zero h = absurd (omega arith)
  drop-slice f i (suc m) (suc n) h =
      drop-slice f (suc i) m n (omega arith) ∙ ap₂ (slice f) (omega arith) (omega arith)

  pub get_elem?-slice :
      (f : ℕ → A) (i n k : ℕ) → k < n → get_elem? (slice f i n) k ≡ some (f (i + k))
  get_elem?-slice f i zero k h = absurd (omega arith)
  get_elem?-slice f i (suc n) zero h = ap (λ k. some (f k)) (omega arith)
  get_elem?-slice f i (suc n) (suc k) h =
      get_elem?-slice f (suc i) n k (omega arith) ∙ ap (λ k. some (f k)) (omega arith)

  -- A run that holds `x ∷ xs` holds `x` first, and `xs` behind it.
  pub slice_uncons :
      (f : ℕ → A) (i n : ℕ) (x : A) (xs : List A)
      → slice f i n ≡ x ∷ xs
      → (f i ≡ x) × (slice f (i + 1) (n - 1) ≡ xs) × (n ≡ suc (length xs))
  slice_uncons f i zero x xs e = cc
  slice_uncons f i (suc n) x xs e =
      let tail_eq : slice f (suc i) n ≡ xs = cc in
      (
        cc,
        ap₂ (slice f) {y = suc i} {v = n} (omega arith) (omega arith) ∙ tail_eq,
        omega (arith, ap length tail_eq, length-slice f (suc i) n),
      )

  -- A run that holds `ys ++ zs` holds `ys` first, and `zs` behind it.
  pub slice_split :
      (f : ℕ → A) (i n : ℕ) (ys zs : List A)
      → slice f i n ≡ ys ++ zs
      → (slice f i (length ys) ≡ ys)
        × (slice f (i + length ys) (n - length ys) ≡ zs)
        × (n ≡ length ys + length zs)
  slice_split f i n [] zs e = (
    refl,
    ap₂ (slice f) {y = i} {v = n} (omega arith) (omega arith) ∙ e,
    omega (arith, ap length e, length-slice f i n),
  )
  slice_split f i n (y ∷ ys) zs e =
      let (first, rest, len) = slice_uncons f i n y (ys ++ zs) e in
      let (front, back, size) = slice_split f (i + 1) (n - 1) ys zs rest in
      (
        ap₂ ◌∷◌ first (ap (λ k. slice f k (length ys)) {y = i + 1} (omega arith) ∙ front),
        ap₂ (slice f) {y = i + 1 + length ys} {v = n - 1 - length ys} (omega arith) (omega arith)
            ∙ back,
        omega (arith, size, len),
      )

  pub slice_from : (f : ℕ → A) (o n : ℕ) → slice (λ k. f (o + k)) 0 n ≡ slice f o n
  slice_from f o n = slice_ext (λ k. f (o + k)) f 0 o n (λ k lt. ap f {y = o + k} (omega arith))

  pub slice_const : (x : A) (i n : ℕ) → slice (λ _. x) i n ≡ replicate n x
  slice_const x i zero = refl
  slice_const x i (suc n) = ap (λ l. x ∷ l) (slice_const x (suc i) n)

  pub slice-get_or : (xs : List A) (d : A) → slice (λ k. get_or xs k d) 0 (length xs) ≡ xs
  slice-get_or [] d = refl
  slice-get_or (x ∷ xs) d =
      ap (λ l. x ∷ l)
        (slice_ext (λ k. get_or (x ∷ xs) k d) (λ k. get_or xs k d) 1 0 (length xs) (shift xs)
          ∙ slice-get_or xs d)
    where
      shift :
          (xs : List A) (k : ℕ) → k < length xs → get_or (x ∷ xs) (1 + k) d ≡ get_or xs (0 + k) d
      shift xs k lt =
          ap₂ (λ i j. get_or (x ∷ xs) i d) {y = suc k} {u = k} {v = 0 + k} (omega arith)
            (omega arith)
          ∙ ap (λ j. get_or xs j d) {x = k} (omega arith)

pub map-slice {ℓ κ} :
    {A : Type ℓ} {B : Type κ} (h : A → B) (f : ℕ → A) (i n : ℕ)
    → map h (slice f i n) ≡ slice (λ k. h (f k)) i n
map-slice h f i zero = refl
map-slice h f i (suc n) = ap (λ l. h (f i) ∷ l) (map-slice h f (suc i) n)
