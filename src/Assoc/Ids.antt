-- ===== src/Assoc/Ids.antt =====
-- Lists of elements sorted by the ids of their keys, as maps from ids to elements.
use fth.Base.{
  ℕ, zero, suc, ◌+◌, ◌==◌, ==_iff, ◌≤◌, ◌<◌, ◌≡◌, ◌≢◌, refl, sym, ap, ◌∙◌, ◌⊎◌, inl, inr, Bool,
  true, false, Bool-cases, List, [], ◌∷◌, ◌++◌, Option, none, some, arith, if◌then◌else◌, set,
  get_elem?,
}
use mathlib.Core.Path.{subst}
use fth.Memory.Slice.{slice}
use fth.Assoc.{Element, id_of}
use fth.Assoc.Search.{Above, Sorted}
use fth.Assoc.Insert.{NotAbove, StartsAbove}

same_test : (n m : ℕ) → n ≡ m → (n == m) ≡ true
same_test n m e = ground arith

pub other_test : (n m : ℕ) → (n < m) ⊎ (m < n) → (n == m) ≡ false
other_test n m h = ground arith

below : (m n : ℕ) → m ≤ n → (n == m) ≡ false → m < n
below m n h f = ground arith

split_test : (n m k : ℕ) → (n == m) ≡ true → (k == m) ≡ false → (n == k) ≡ false
split_test n m k t f = ground arith

if_twice {ℓ} :
    {A : Type ℓ} (p : Bool) (a b r : A)
    → (if p then a else r) ≡ (if p then a else if p then b else r)
if_twice true a b r = refl
if_twice false a b r = refl

module _ {ℓ} {A : Type ℓ} (hash_id : A → ℕ) (false_object : A) where
  abbrev id : Element A → ℕ
  id e = id_of hash_id false_object e

  step : (f : ℕ → Element A) (o j : ℕ) → id (f (o + suc j)) ≡ id (f (suc o + j))
  step f o j = let e : o + suc j ≡ suc o + j = omega arith in ap (λ k. id (f k)) e

  -- the first element with the id
  abbrev pub find_id : ℕ → List (Element A) → Option (Element A)
  find_id n [] = none
  find_id n (e ∷ rest) = if n == id e then some e else find_id n rest

  Above-trans :
      (m n : ℕ) (xs : List (Element A))
      → m < n
      → Above hash_id false_object n xs
      → Above hash_id false_object m xs
  Above-trans m n [] lt h = tt
  Above-trans m n (x ∷ xs) lt (here, rest) = (omega arith, Above-trans m n xs lt rest)

  -- An element with the same id in its place.
  Above-set :
      (m : ℕ) (xs : List (Element A)) (i : ℕ) (x e : Element A)
      → get_elem? xs i ≡ some e
      → id x ≡ id e
      → Above hash_id false_object m xs
      → Above hash_id false_object m (set xs i x)
  Above-set m [] i x e at same h = h
  Above-set m (y ∷ ys) zero x e at same (here, rest) =
      let top : y ≡ e = cc in (omega (arith, here, same, ap id top), rest)
  Above-set m (y ∷ ys) (suc i) x e at same (here, rest) = (here, Above-set m ys i x e at same rest)

  Above-at :
      (m : ℕ) (xs : List (Element A)) (i : ℕ) (e : Element A)
      → get_elem? xs i ≡ some e
      → Above hash_id false_object m xs
      → m < id e
  Above-at m [] i e at h = cc
  Above-at m (y ∷ ys) zero e at (here, rest) =
      let top : y ≡ e = cc in omega (arith, here, ap id top)
  Above-at m (y ∷ ys) (suc i) e at (here, rest) = Above-at m ys i e at rest

  pub Sorted-set :
      (xs : List (Element A)) (i : ℕ) (x e : Element A)
      → get_elem? xs i ≡ some e
      → id x ≡ id e
      → Sorted hash_id false_object xs
      → Sorted hash_id false_object (set xs i x)
  Sorted-set [] i x e at same s = s
  Sorted-set (y ∷ ys) zero x e at same (above, rest) =
      let top : y ≡ e = cc in
      let level : id y ≡ id x = ap id top ∙ sym same in
      (subst (λ m. Above hash_id false_object m ys) level above, rest)
  Sorted-set (y ∷ ys) (suc i) x e at same (above, rest) =
      (Above-set (id y) ys i x e at same above, Sorted-set ys i x e at same rest)

  pub find_id-set :
      (n : ℕ) (xs : List (Element A)) (i : ℕ) (x e : Element A)
      → get_elem? xs i ≡ some e
      → id x ≡ id e
      → Sorted hash_id false_object xs
      → find_id n (set xs i x) ≡ (if n == id x then some x else find_id n xs)
  find_id-set n [] i x e at same s = cc
  find_id-set n (y ∷ ys) zero x e at same (above, rest) =
      let top : y ≡ e = cc in
      let level : id y ≡ id x = ap id top ∙ sym same in
      rw level (if_twice (n == id x) (some x) (some y) (find_id n ys))
  find_id-set n (y ∷ ys) (suc i) x e at same (above, rest) =
      let lower = Above-at (id y) ys i e at above in
      elim (Bool-cases (n == id y)) [
        | inl t ↦
            rw (t, other_test n (id x) (inl (omega (arith, lower, same, (==_iff n (id y)).0 t))))
        | inr f ↦ rw f (find_id-set n ys i x e at same rest)
      ]

  Above-all :
      (m : ℕ) (zs : List (Element A))
      → StartsAbove hash_id false_object m zs
      → Sorted hash_id false_object zs
      → Above hash_id false_object m zs
  Above-all m [] h s = tt
  Above-all m (z ∷ zs) h (above, rest) = (h, Above-trans m (id z) zs h above)

  Above-insert :
      (m : ℕ) (val : Element A) (ys zs : List (Element A))
      → m < id val
      → Above hash_id false_object m (ys ++ zs)
      → Above hash_id false_object m (ys ++ val ∷ zs)
  Above-insert m val [] zs lt h = (lt, h)
  Above-insert m val (y ∷ ys) zs lt (here, rest) = (here, Above-insert m val ys zs lt rest)

  pub Sorted-insert :
      (val : Element A) (ys zs : List (Element A))
      → NotAbove hash_id false_object (id val) ys
      → StartsAbove hash_id false_object (id val) zs
      → find_id (id val) (ys ++ zs) ≡ none
      → Sorted hash_id false_object (ys ++ zs)
      → Sorted hash_id false_object (ys ++ val ∷ zs)
  Sorted-insert val [] zs low high missing s = (Above-all (id val) zs high s, s)
  Sorted-insert val (y ∷ ys) zs (here, low) high missing (above, rest) =
      elim (Bool-cases (id val == id y)) [
        | inl t ↦ cc
        | inr f ↦ (
          Above-insert (id y) val ys zs (below (id y) (id val) here f) above,
          Sorted-insert val ys zs low high (rw f at missing) rest,
        )
      ]

  pub find_id-insert :
      (n : ℕ) (val : Element A) (ys zs : List (Element A))
      → find_id (id val) (ys ++ zs) ≡ none
      → find_id n (ys ++ val ∷ zs) ≡ (if n == id val then some val else find_id n (ys ++ zs))
  find_id-insert n val [] zs missing = refl
  find_id-insert n val (y ∷ ys) zs missing = elim (Bool-cases (id val == id y)) [
    | inl t ↦ cc
    | inr f ↦ elim (Bool-cases (n == id y)) [
      | inl t ↦ rw (t, split_test n (id y) (id val) t f)
      | inr g ↦ rw g (find_id-insert n val ys zs (rw f at missing))
    ]
  ]

  pub find_id-slice :
      (n : ℕ) (f : ℕ → Element A) (o m i : ℕ)
      → ((j k : ℕ) → j < k → k < m → id (f (o + j)) < id (f (o + k)))
      → i < m
      → id (f (o + i)) ≡ n
      → find_id n (slice f o m) ≡ some (f (o + i))
  find_id-slice n f o zero i up lt at = absurd (omega arith)
  find_id-slice n f o (suc m) zero up lt at =
      let e : o + 0 ≡ o = omega arith in
      let level : n ≡ id (f o) = sym at ∙ ap (λ j. id (f j)) e in
      rw (same_test n (id (f o)) level) (ap (λ j. some (f j)) (sym e))
  find_id-slice n f o (suc m) (suc i) up lt at =
      let e : o + suc i ≡ suc o + i = omega arith in
      let z : o + 0 ≡ o = omega arith in
      let lower = up 0 (suc i) (omega arith) lt in
      rw (other_test n (id (f o)) (inr (omega (arith, lower, at, ap (λ j. id (f j)) z)))) (
        find_id-slice n f (suc o) m i
          (λ j k a b.
            omega (arith, up (suc j) (suc k) (omega arith) (omega arith), step f o j, step f o k))
          (omega arith) (sym (ap (λ j. id (f j)) e) ∙ at)
        ∙ ap (λ j. some (f j)) (sym e))

  pub find_id-none :
      (n : ℕ) (f : ℕ → Element A) (o m : ℕ)
      → ((j : ℕ) → j < m → id (f (o + j)) ≢ n)
      → find_id n (slice f o m) ≡ none
  find_id-none n f o zero h = refl
  find_id-none n f o (suc m) h =
      let z : o + 0 ≡ o = omega arith in
      let apart : id (f o) ≢ n = λ e. h 0 (omega arith) (ap (λ j. id (f j)) z ∙ e) in
      let test : (n == id (f o)) ≡ false = ground arith in
      rw test (
        find_id-none n f (suc o) m (λ j lt e.
          h (suc j) (omega arith) (ap (λ k. id (f k)) {y = suc o + j} (omega arith) ∙ e)))
