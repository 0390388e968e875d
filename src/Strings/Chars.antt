-- ===== src/Strings/Chars.antt =====
-- Single characters of src/string.c: their reading and writing, the changes of case, the replacing
-- of one character by another, and chomp.
pub mod Access
pub mod Case
pub mod Chomp
use fth.Base.{
  ℕ, zero, suc, ◌+◌, ◌-◌, true, ◌==◌, if◌then◌else◌, ℤ, pos, negsuc, Option, none, some, Outcome,
  ok, throw, fault, out_of_range, wrong_type,
}
use fth.Memory.{Block, load, store}
use fth.Array.Access.{in_range, from_end}
use fth.Strings.{FString, Method}
use fth.Strings.Ends.{string_pop}

unfoldable pub str_ref : ℤ → FString → Outcome ℕ
str_ref idx s = elim (in_range idx s.length) [
  | none ↦ throw out_of_range
  | some i ↦ elim (load s.buf (s.data_offset + i)) [ none ↦ fault | some c ↦ ok c ]
]

-- what is stored as a character: one, or an object that is none
pub data Value : Type 0 where
  character : ℕ → Value
  other : Value

-- the byte `c` at place `i`
unfoldable pub put_char : ℕ → ℕ → FString → Method (Unit {0})
put_char i c s = elim (store s.buf (s.data_offset + i) c) [
  | none ↦ (fault, s)
  | some b ↦ (ok tt, record s { buf = b; changed_p = true })
]

unfoldable pub str_set : ℤ → Value → FString → Method (Unit {0})
unfolding put_char
str_set idx value s = elim (in_range idx s.length) [
  | none ↦ (throw out_of_range, s)
  | some i ↦ elim value [ character c ↦ put_char i c s | other ↦ (throw wrong_type, s) ]
]

unfoldable pub string_c_char_ref : ℤ → FString → Outcome ℕ
string_c_char_ref idx s = elim (in_range (from_end idx s.length) s.length) [
  | none ↦ throw out_of_range
  | some i ↦ elim (load s.buf (s.data_offset + i)) [ none ↦ fault | some c ↦ ok c ]
]

unfoldable pub string_char_ref : ℤ → FString → Outcome ℕ
unfolding str_ref
string_char_ref idx s = str_ref (from_end idx s.length) s

unfoldable pub string_c_char_set : ℤ → ℕ → FString → Method (Unit {0})
unfolding put_char
string_c_char_set idx c s = elim (in_range (from_end idx s.length) s.length) [
  | none ↦ (throw out_of_range, s)
  | some i ↦ put_char i c s
]

unfoldable pub string_char_set : ℤ → Value → FString → Method (Unit {0})
unfolding str_set
string_char_set idx value s = str_set (from_end idx s.length) value s

-- `for (i = start; i < start + n; i++) b[i] = f (b[i])`
unfoldable pub change_each : (ℕ → ℕ) → ℕ → ℕ → ℕ → Block ℕ → Option (Block ℕ)
change_each f off i zero b = some b
change_each f off i (suc n) b = elim (load b (off + i)) [
  | none ↦ none
  | some c ↦ elim (store b (off + i) (f c)) [
    | none ↦ none
    | some b' ↦ change_each f off (suc i) n b'
  ]
]

-- the body of `upcase`, `downcase` and the replacing loop, of a string that is not empty
unfoldable pub change_all : (ℕ → ℕ) → FString → Method (Unit {0})
unfolding change_each
change_all f s =
    if s.length == 0 then (ok tt, s) else elim (change_each f s.data_offset 0 s.length s.buf) [
      | none ↦ (fault, s)
      | some b ↦ (ok tt, record s { buf = b; changed_p = true })
    ]

-- `toupper` and `tolower` of the C library depend on the locale.
abbrev pub string_upcase : (ℕ → ℕ) → FString → Method (Unit {0})
string_upcase toupper s = change_all toupper s

abbrev pub string_downcase : (ℕ → ℕ) → FString → Method (Unit {0})
string_downcase tolower s = change_all tolower s

unfoldable pub string_capitalize : (ℕ → ℕ) → (ℕ → ℕ) → FString → Method (Unit {0})
unfolding change_each
string_capitalize toupper tolower s =
    if s.length == 0 then (ok tt, s) else elim (load s.buf s.data_offset) [
      | none ↦ (fault, s)
      | some c ↦ elim (store s.buf s.data_offset (toupper c)) [
        | none ↦ (fault, s)
        | some b ↦ elim (change_each tolower s.data_offset 1 (s.length - 1) b) [
          | none ↦ (fault, record s { buf = b })
          | some b' ↦ (ok tt, record s { buf = b'; changed_p = true })
        ]
      ]
    ]

-- the case of `replace` where both strings have one character: `if (b[i] == f) b[i] = t`
unfoldable pub replace_char : ℕ → ℕ → FString → Method (Unit {0})
unfolding change_all
replace_char f t s = change_all (λ c. if c == f then t else c) s

-- `data[length - 1]` is read of the empty string too; a newline is 10
unfoldable pub string_chomp : (ℕ → ℕ) → FString → Method (Unit {0})
string_chomp fresh s = elim (load s.buf (s.data_offset + s.length - 1)) [
  | none ↦ (fault, s)
  | some c ↦
      if c == 10
      then (let r = string_pop fresh s in
          elim r.0 [ ok _ ↦ (ok tt, r.1) | throw e ↦ (throw e, r.1) | fault ↦ (fault, r.1) ])
      else (ok tt, s)
]
