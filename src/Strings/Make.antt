-- ===== src/Strings/Make.antt =====
-- The makers of src/string.c: fth_make_string and its kin, the copy, the substring, and the array of
-- the characters.
pub mod Fresh
pub mod Copy
pub mod Prefix
pub mod Substring
pub mod Cells
use fth.Base.{
  ℕ, zero, suc, ◌+◌, ◌-◌, true, false, ◌==◌, ltb, leb, if◌then◌else◌, ℤ, pos, negsuc, Option, none,
  some, Outcome, ok, throw, fault, out_of_range,
}
use fth.Memory.{Block, load, store, memmove}
use fth.Array.{FArray, make_array_instance}
use fth.Array.Access.{in_range, from_end, make_filled}
use fth.Strings.{FString, Method, make_string_len}
use fth.Strings.Libc.{Pointer, strlen, string_data}
use fth.Strings.Ends.{Added, another, string_push}

-- the literal `""`
abbrev pub empty_literal : Pointer
empty_literal = record { block = record { size = 1; cell = λ _. 0 }; offset = 0 }

-- `if (str == NULL || *str == '\0') str = ""`, where `none` is NULL
unfoldable pub or_empty : Option Pointer → Option Pointer
or_empty none = some empty_literal
or_empty (some p) = elim (load p.block p.offset) [
  | none ↦ none
  | some c ↦ if c == 0 then some empty_literal else some p
]

-- `memmove (s->data, str, n)`
unfoldable pub copy_bytes : Pointer → ℕ → FString → Outcome FString
copy_bytes p n s = elim (memmove s.buf s.data_offset p.block p.offset n) [
  | none ↦ fault
  | some b ↦ ok (record s { buf = b })
]

-- `make_string_len (n)` and the copying of `n` bytes
unfoldable pub make_copy : Pointer → ℕ → Outcome FString
unfolding copy_bytes
make_copy p n = elim (make_string_len (pos n)) [
  | ok s ↦ copy_bytes p n s
  | throw e ↦ throw e
  | fault ↦ fault
]

unfoldable pub make_string : Option Pointer → Outcome FString
unfolding make_copy
make_string str = elim (or_empty str) [
  | none ↦ fault
  | some p ↦ elim (strlen p) [ none ↦ fault | some len ↦ make_copy p len ]
]

-- `none` is `#f`
unfoldable pub make_string_or_false : Option Pointer → Outcome (Option FString)
make_string_or_false none = ok none
make_string_or_false (some p) = elim (load p.block p.offset) [
  | none ↦ fault
  | some c ↦ if c == 0 then ok none else elim (strlen p) [
    | none ↦ fault
    | some len ↦ elim (make_copy p len) [ ok s ↦ ok (some s) | throw e ↦ throw e | fault ↦ fault ]
  ]
]

-- `FICL_MIN ((size_t)len, slen)`: a negative `len` is a `size_t` beyond every length
unfoldable pub at_most : ℤ → ℕ → ℕ
at_most (pos len) slen = if ltb len slen then len else slen
at_most (negsuc k) slen = slen

unfoldable pub fth_make_string_len : Option Pointer → ℤ → Outcome FString
unfolding make_copy
fth_make_string_len str len = elim (or_empty str) [
  | none ↦ fault
  | some p ↦ elim (strlen p) [
    | none ↦ fault
    | some slen ↦
        let blen = at_most len slen in
        elim (make_copy p blen) [
          | ok s ↦ elim (store s.buf (s.data_offset + blen) 0) [
            | none ↦ fault
            | some b ↦ ok (record s { buf = b })
          ]
          | throw e ↦ throw e
          | fault ↦ fault
        ]
  ]
]

unfoldable pub make_empty_string : Outcome FString
make_empty_string = elim (make_string_len (pos 0)) [
  | ok s ↦ elim (store s.buf s.data_offset 0) [ none ↦ fault | some b ↦ ok (record s { buf = b }) ]
  | throw e ↦ throw e
  | fault ↦ fault
]

-- `str_to_string` is `fth_string_copy` behind its assertion.
unfoldable pub string_copy : FString → Outcome FString
unfolding make_string
string_copy s = make_string (some (string_data s))

unfoldable pub string_scat : (ℕ → ℕ) → Option Pointer → FString → Method (Unit {0})
string_scat fresh str s = elim (make_string str) [
  | ok add ↦ string_push fresh (another add) s
  | throw e ↦ (throw e, s)
  | fault ↦ (fault, s)
]

unfoldable pub string_sncat : (ℕ → ℕ) → Option Pointer → ℤ → FString → Method (Unit {0})
string_sncat fresh str len s = elim (fth_make_string_len str len) [
  | ok add ↦ string_push fresh (another add) s
  | throw e ↦ (throw e, s)
  | fault ↦ (fault, s)
]

-- `end`, counted from the end where it is negative, and the length where it is not in
-- [start, length]
unfoldable pub last_position : ℕ → ℤ → ℕ → ℕ
last_position start end_at len = elim (from_end end_at len) [
  | pos e ↦ if ltb e start then len else if ltb len e then len else e
  | negsuc k ↦ len
]

-- As many bytes as `end - start` are copied from the front first, and then overwritten from `start`.
unfoldable pub substring_from : ℕ → ℕ → FString → Outcome FString
substring_from start end_at s =
    elim (fth_make_string_len (some (string_data s)) (pos (end_at - start))) [
      | ok res ↦ elim (memmove res.buf res.data_offset s.buf (s.data_offset + start) res.length) [
        | none ↦ fault
        | some b ↦ ok (record res { buf = b })
      ]
      | throw e ↦ throw e
      | fault ↦ fault
    ]

unfoldable pub string_substring : ℤ → ℤ → FString → Outcome FString
unfolding substring_from
string_substring start end_at s = elim (in_range (from_end start s.length) s.length) [
  | none ↦ throw out_of_range
  | some i ↦ substring_from i (last_position i end_at s.length) s
]

-- `char` is `CHAR_TO_FTH`, the object of a character
unfoldable pub string_to_array {ℓ} : {A : Type ℓ} → A → (ℕ → A) → FString → Outcome (FArray A)
string_to_array zero_bits char s =
    make_filled make_array_instance zero_bits (pos s.length)
      (λ i. elim (load s.buf (s.data_offset + i)) [ none ↦ none | some c ↦ some (char c) ])
