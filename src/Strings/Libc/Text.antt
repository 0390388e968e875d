-- ===== src/Strings/Libc/Text.antt =====
-- What the C library reads of a valid string.
use fth.Base.{
  ℕ, zero, suc, ◌+◌, ◌-◌, ◌<◌, ◌≡◌, ◌≢◌, refl, ap, ◌∙◌, false, ◌==◌, if◌then◌else◌, List, [], ◌∷◌,
  length, arith, inl, inr, Option, none, some, Bool-cases,
}
use mathlib.Core.Path.{subst}
use fth.Memory.Slice.{slice}
use fth.Strings.{FString, view}
use fth.Strings.Valid.{IsValid, IsText}
use fth.Strings.Libc.{Pointer, scan, c_string, strlen, string_data}

-- the characters before the first NUL character
unfoldable pub until_nul : List ℕ → List ℕ
until_nul [] = []
until_nul (c ∷ cs) = let rest = until_nul cs in if c == 0 then [] else c ∷ rest

pub until_nul-IsText : (cs : List ℕ) → IsText (until_nul cs)
unfolding until_nul
until_nul-IsText [] = tt
until_nul-IsText (c ∷ cs) = let rest = until_nul-IsText cs in ground (arith, rest)

pub IsText-until_nul : (cs : List ℕ) → IsText cs → until_nul cs ≡ cs
unfolding until_nul
IsText-until_nul [] t = refl
IsText-until_nul (c ∷ cs) (h, t) = let rest = IsText-until_nul cs t in ground (arith, rest, h)

-- A scan that comes to a NUL byte behind `m` cells reads those cells up to the first NUL byte.
pub scan-slice :
    (f : ℕ → ℕ) (i m n : ℕ) → m < n → f (i + m) ≡ 0 → scan f i n ≡ some (until_nul (slice f i m))
unfolding scan until_nul
scan-slice f i m zero lt e = absurd (omega arith)
scan-slice f i zero (suc n) lt e =
    let here : f i ≡ 0 = ap f {y = i + 0} (omega arith) ∙ e in ground (arith, here)
scan-slice f i (suc m) (suc n) lt e =
    let rest = scan-slice f (suc i) m n (omega arith) (ap f {y = i + suc m} (omega arith) ∙ e) in
    rw rest (ground arith)

-- The C library reads the characters of a valid string up to the first NUL character.
pub c_string-view : (s : FString) → IsValid s → c_string (string_data s) ≡ some (until_nul (view s))
c_string-view s v =
    let b = v.bounded in
    scan-slice s.buf.cell s.data_offset s.length (s.buf.size - s.data_offset)
      (omega (arith, b.sized, b.aimed, b.fits)) v.ended

-- If there is none, it reads all.
pub c_string-IsText :
    (s : FString) → IsValid s → IsText (view s) → c_string (string_data s) ≡ some (view s)
c_string-IsText s v t = c_string-view s v ∙ ap (λ cs. some cs) (IsText-until_nul (view s) t)

pub strlen-c_string :
    (p : Pointer) (cs : List ℕ) → c_string p ≡ some cs → strlen p ≡ some (length cs)
unfolding strlen
strlen-c_string p cs e = rw (e, strlen)

-- A scan that ends read the cells before the NUL byte.
abbrev Scanned : (ℕ → ℕ) → ℕ → ℕ → List ℕ → Type 0
Scanned f i n cs = (length cs < n) × (slice f i (length cs) ≡ cs) × IsText cs

pub scan-slice_prefix :
    (f : ℕ → ℕ) (i n : ℕ) (cs : List ℕ)
    → scan f i n ≡ some cs
    → (length cs < n) × (slice f i (length cs) ≡ cs) × IsText cs
unfolding scan
scan-slice_prefix f i zero cs e = absurd (ground (arith, e))
scan-slice_prefix f i (suc n) cs e = elim (Bool-cases (f i == 0)) [
  | inl t ↦
      let at_end : some [] ≡ some cs = rw t at e in
      let same : [] ≡ cs = cc in subst (Scanned f i (suc n)) same (omega arith, refl, tt)
  | inr t ↦ go (scan f (suc i) n) (scan-slice_prefix f (suc i) n) t (rw t at e)
]
  where
    go :
        (rest : Option (List ℕ))
        → ((ds : List ℕ) → rest ≡ some ds → Scanned f (suc i) n ds)
        → (f i == 0) ≡ false
        → elim rest [ none ↦ none | some ds ↦ some (f i ∷ ds) ] ≡ some cs
        → Scanned f i (suc n) cs
    go none r t e = absurd (ground (arith, e))
    go (some ds) r t e =
        let (lt, cells, text) = r ds refl in
        let same : f i ∷ ds ≡ cs = cc in
        let there : f i ≢ 0 = ground (arith, t) in
        subst (Scanned f i (suc n)) same (omega (arith, lt), ap (λ l. f i ∷ l) cells, (there, text))
