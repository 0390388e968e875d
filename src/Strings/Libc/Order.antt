-- ===== src/Strings/Libc/Order.antt =====
-- `strcmp` against the order of the dictionary.
use fth.Base.{
  ℕ, zero, suc, ◌<◌, ◌≡◌, refl, sym, ◌⊎◌, inl, inr, ltb, ltb→lt, ltb_false→le, ℤ, pos, negsuc, List,
  [], ◌∷◌, arith, Bool-cases,
}
use mathlib.Core.Path.{ap₂}
use fth.Strings.Libc.{strcmp}

-- One text comes before another in the dictionary: it ends first, or its byte is less where the two
-- differ first.
abbrev pub Precedes : List ℕ → List ℕ → Type 0
Precedes xs [] = ⊥
Precedes [] (y ∷ ys) = Unit
Precedes (x ∷ xs) (y ∷ ys) = (x < y) ⊎ ((x ≡ y) × Precedes xs ys)

-- what each sign of `strcmp` says of the two texts
abbrev pub Compares : ℤ → List ℕ → List ℕ → Type 0
Compares (pos zero) xs ys = xs ≡ ys
Compares (pos (suc n)) xs ys = Precedes ys xs
Compares (negsuc n) xs ys = Precedes xs ys

Compares-cons :
    (z : ℤ) (x y : ℕ) (xs ys : List ℕ) → x ≡ y → Compares z xs ys → Compares z (x ∷ xs) (y ∷ ys)
Compares-cons (pos zero) x y xs ys e h = ap₂ ◌∷◌ e h
Compares-cons (pos (suc n)) x y xs ys e h = inr (sym e, h)
Compares-cons (negsuc n) x y xs ys e h = inr (e, h)

pub strcmp-Compares : (xs ys : List ℕ) → Compares (strcmp xs ys) xs ys
unfolding strcmp
strcmp-Compares [] [] = refl
strcmp-Compares [] (y ∷ ys) = tt
strcmp-Compares (x ∷ xs) [] = tt
strcmp-Compares (x ∷ xs) (y ∷ ys) = elim (Bool-cases (ltb x y)) [
  | inl t ↦ rw t (inl (ltb→lt x y t))
  | inr t ↦ elim (Bool-cases (ltb y x)) [
    | inl u ↦ rw (t, u) (inl (ltb→lt y x u))
    | inr u ↦
        rw (t, u)
          (Compares-cons (strcmp xs ys) x y xs ys
            (omega (arith, ltb_false→le x y t, ltb_false→le y x u)) (strcmp-Compares xs ys))
  ]
]

-- No text comes before itself, and of two none comes before the other both ways.
pub Precedes-asymmetric : (xs ys : List ℕ) → Precedes xs ys → Precedes ys xs → ⊥
Precedes-asymmetric xs [] h k = h
Precedes-asymmetric [] (y ∷ ys) h k = k
Precedes-asymmetric (x ∷ xs) (y ∷ ys) (inl h) (inl k) = omega arith
Precedes-asymmetric (x ∷ xs) (y ∷ ys) (inl h) (inr (e, k)) = omega arith
Precedes-asymmetric (x ∷ xs) (y ∷ ys) (inr (e, h)) (inl k) = omega arith
Precedes-asymmetric (x ∷ xs) (y ∷ ys) (inr (e, h)) (inr (f, k)) = Precedes-asymmetric xs ys h k

pub Precedes-irreflexive : (xs : List ℕ) → Precedes xs xs → ⊥
Precedes-irreflexive [] h = h
Precedes-irreflexive (x ∷ xs) (inl h) = omega arith
Precedes-irreflexive (x ∷ xs) (inr (e, h)) = Precedes-irreflexive xs h
