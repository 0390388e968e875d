-- ===== src/Strings/Libc/Search.antt =====
-- `strstr` finds the first place of a text in another.
use fth.Base.{
  ℕ, zero, suc, ◌<◌, ◌≡◌, refl, sym, ap, ◌∙◌, inl, inr, true, false, List, [], ◌∷◌, ◌++◌, length,
  drop, Option, none, some, arith, Bool-cases,
}
use mathlib.Core.Path.{ap₂}
use fth.Strings.Libc.{starts_with, strstr}

-- `key` stands in `cs` from place `i` on.
abbrev pub Stands : List ℕ → List ℕ → ℕ → Type 0
Stands key cs i = (rest : List ℕ) × (drop i cs ≡ key ++ rest)

pub starts_with-Stands : (key cs : List ℕ) → starts_with key cs ≡ true → Stands key cs 0
unfolding starts_with
starts_with-Stands [] cs e = (cs, refl)
starts_with-Stands (k ∷ ks) [] e = absurd (ground (arith, e))
starts_with-Stands (k ∷ ks) (c ∷ cs) e =
    let (same, more) : (k ≡ c) × (starts_with ks cs ≡ true) = ground (arith, e) in
    let (rest, r) = starts_with-Stands ks cs more in (rest, ap₂ ◌∷◌ (sym same) r)

pub Stands-starts_with : (key rest : List ℕ) → starts_with key (key ++ rest) ≡ true
unfolding starts_with
Stands-starts_with [] rest = refl
Stands-starts_with (k ∷ ks) rest = let more = Stands-starts_with ks rest in ground (arith, more)

-- The key stands at the place that is found, and at none before it.
pub record FoundFirst (key cs : List ℕ) (i : ℕ) : Type 0 where
  pub stands : Stands key cs i
  pub first : (j : ℕ) → j < i → Stands key cs j → ⊥

-- what `strstr` returns
abbrev pub Finds : List ℕ → List ℕ → Option ℕ → Type 0
Finds key cs none = (i : ℕ) → i < suc (length cs) → Stands key cs i → ⊥
Finds key cs (some i) = FoundFirst key cs i

refuted : (key cs : List ℕ) → starts_with key cs ≡ false → Stands key cs 0 → ⊥
refuted key cs f (rest, e) =
    let yes : starts_with key cs ≡ true = ap (starts_with key) e ∙ Stands-starts_with key rest in
    ground (arith, yes, f)

Finds-cons :
    (key cs : List ℕ) (c : ℕ) (r : Option ℕ)
    → starts_with key (c ∷ cs) ≡ false
    → Finds key cs r
    → Finds key (c ∷ cs) (elim r [ none ↦ none | some i ↦ some (suc i) ])
Finds-cons key cs c none f h = λ i lt s. go i lt s
  where
    go : (i : ℕ) → i < suc (suc (length cs)) → Stands key (c ∷ cs) i → ⊥
    go zero lt s = refuted key (c ∷ cs) f s
    go (suc i) lt s = h i (omega arith) s
Finds-cons key cs c (some i) f h = record { stands = h.stands; first = λ j lt s. go j lt s }
  where
    go : (j : ℕ) → j < suc i → Stands key (c ∷ cs) j → ⊥
    go zero lt s = refuted key (c ∷ cs) f s
    go (suc j) lt s = h.first j (omega arith) s

pub strstr-Finds : (cs key : List ℕ) → Finds key cs (strstr cs key)
unfolding strstr
strstr-Finds [] key = elim (Bool-cases (starts_with key [])) [
  | inl t ↦
      rw (t, strstr)
        (record { stands = starts_with-Stands key [] t; first = λ j lt s. omega arith })
  | inr f ↦ rw (f, strstr) (λ i lt s. go i lt f s)
]
  where
    go : (i : ℕ) → i < 1 → starts_with key [] ≡ false → Stands key [] i → ⊥
    go zero lt f s = refuted key [] f s
    go (suc i) lt f s = omega arith
strstr-Finds (c ∷ cs) key = elim (Bool-cases (starts_with key (c ∷ cs))) [
  | inl t ↦
      rw (t, strstr)
        (record { stands = starts_with-Stands key (c ∷ cs) t; first = λ j lt s. omega arith })
  | inr f ↦ rw (f, strstr) (Finds-cons key cs c (strstr cs key) f (strstr-Finds cs key))
]
