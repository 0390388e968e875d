-- ===== src/Strings/Libc.antt =====
-- What src/string.c takes from the C library: a pointer to a string that ends in a NUL byte, with
-- strlen, strcmp and strstr on what it points at. To read behind the block is `none`.
pub mod Text
pub mod Order
pub mod Search
use fth.Base.{
  ℕ, zero, suc, ◌+◌, ◌-◌, Bool, true, false, ◌&&◌, ◌==◌, ltb, if◌then◌else◌, ℤ, pos, negsuc, List,
  [], ◌∷◌, length, Option, none, some,
}
use fth.Memory.{Block}
use fth.Strings.{FString}

-- a `char *` that is not NULL
pub record Pointer : Type 0 where
  pub block : Block ℕ
  pub offset : ℕ

-- the bytes before the first NUL byte of the `n` cells from `i` on
unfoldable pub scan : (ℕ → ℕ) → ℕ → ℕ → Option (List ℕ)
scan f i zero = none
scan f i (suc n) =
    let rest = scan f (suc i) n in
    if f i == 0 then some [] else elim rest [ none ↦ none | some cs ↦ some (f i ∷ cs) ]

abbrev pub c_string : Pointer → Option (List ℕ)
c_string p = scan p.block.cell p.offset (p.block.size - p.offset)

unfoldable pub strlen : Pointer → Option ℕ
strlen p = elim (c_string p) [ none ↦ none | some cs ↦ some (length cs) ]

-- The result is negative, zero or positive as the first is less than, equal to or greater than the
-- second, byte by byte.
unfoldable pub strcmp : List ℕ → List ℕ → ℤ
strcmp [] [] = pos 0
strcmp [] (y ∷ ys) = negsuc 0
strcmp (x ∷ xs) [] = pos 1
strcmp (x ∷ xs) (y ∷ ys) =
    let rest = strcmp xs ys in if ltb x y then negsuc 0 else if ltb y x then pos 1 else rest

unfoldable pub starts_with : List ℕ → List ℕ → Bool
starts_with [] cs = true
starts_with (k ∷ ks) [] = false
starts_with (k ∷ ks) (c ∷ cs) = k == c && starts_with ks cs

-- how far behind its first argument the result of `strstr` points; `none` is NULL
unfoldable pub strstr : List ℕ → List ℕ → Option ℕ
unfolding starts_with
strstr [] key = if starts_with key [] then some 0 else none
strstr (c ∷ cs) key =
    let rest = strstr cs key in
    if starts_with key (c ∷ cs) then some 0 else elim rest [ none ↦ none | some i ↦ some (suc i) ]

-- `FTH_STRING_DATA (s)`
abbrev pub string_data : FString → Pointer
string_data s = record { block = s.buf; offset = s.data_offset }
