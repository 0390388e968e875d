-- ===== src/Strings/Compare.antt =====
-- The comparisons of src/string.c and its search for a string in another.
pub mod Equal
pub mod Find
use fth.Base.{
  ℕ, zero, suc, ◌+◌, Bool, true, false, not, ◌==◌, if◌then◌else◌, is_negative, ℤ, pos, negsuc, List,
  Option, none, some, Outcome, ok, throw, fault,
}
use fth.Memory.{Block}
use fth.Strings.{FString}
use fth.Strings.Libc.{Pointer, c_string, strcmp, strstr, string_data}
use fth.Strings.Make.{make_string}

-- the result of `strcmp` on the characters of two strings
unfoldable pub compare_data : FString → FString → Outcome ℤ
compare_data s o = elim (c_string (string_data s)) [
  | none ↦ fault
  | some cs ↦ elim (c_string (string_data o)) [ none ↦ fault | some ds ↦ ok (strcmp cs ds) ]
]

-- `none` is an object that is no string: every comparison with one is false
unfoldable pub compare_with : (ℤ → Bool) → Option FString → Option FString → Outcome Bool
unfolding compare_data
compare_with test none obj2 = ok false
compare_with test (some s) none = ok false
compare_with test (some s) (some o) = elim (compare_data s o) [
  | ok n ↦ ok (test n)
  | throw e ↦ throw e
  | fault ↦ fault
]

abbrev pub is_zero : ℤ → Bool
is_zero (pos n) = n == 0
is_zero (negsuc k) = false

abbrev pub is_positive : ℤ → Bool
is_positive (pos n) = not (n == 0)
is_positive (negsuc k) = false

abbrev pub string_equal_p : Option FString → Option FString → Outcome Bool
string_equal_p = compare_with is_zero

abbrev pub string_not_equal_p : Option FString → Option FString → Outcome Bool
string_not_equal_p = compare_with (λ n. not (is_zero n))

abbrev pub string_less_p : Option FString → Option FString → Outcome Bool
string_less_p = compare_with is_negative

abbrev pub string_greater_p : Option FString → Option FString → Outcome Bool
string_greater_p = compare_with is_positive

-- `equal?` of two strings: the lengths are compared first
unfoldable pub str_equal_p : FString → FString → Outcome Bool
unfolding compare_data
str_equal_p s o =
    if s.length == o.length
    then (if s.length == 0
        then ok true
        else elim (compare_data s o) [ ok n ↦ ok (is_zero n) | throw e ↦ throw e | fault ↦ fault ])
    else ok false

-- `strstr` on the characters of two strings
unfoldable pub find_data : FString → FString → Outcome (Option ℕ)
find_data s key = elim (c_string (string_data s)) [
  | none ↦ fault
  | some cs ↦ elim (c_string (string_data key)) [ none ↦ fault | some ks ↦ ok (strstr cs ks) ]
]

unfoldable pub string_index : FString → FString → Outcome ℤ
unfolding find_data
string_index s key = elim (find_data s key) [
  | ok found ↦ elim found [ none ↦ ok (negsuc 0) | some i ↦ ok (pos i) ]
  | throw e ↦ throw e
  | fault ↦ fault
]

unfoldable pub string_member_p : FString → FString → Outcome Bool
unfolding find_data
string_member_p s key = elim (find_data s key) [
  | ok found ↦ elim found [ none ↦ ok false | some i ↦ ok true ]
  | throw e ↦ throw e
  | fault ↦ fault
]

-- The key is a string; `none` is `#f`.
unfoldable pub string_find : FString → FString → Outcome (Option FString)
unfolding find_data
string_find s key = elim (find_data s key) [
  | ok found ↦ elim found [
    | none ↦ ok none
    | some i ↦ elim (make_string (some (record { block = s.buf; offset = s.data_offset + i }))) [
      | ok r ↦ ok (some r)
      | throw e ↦ throw e
      | fault ↦ fault
    ]
  ]
  | throw e ↦ throw e
  | fault ↦ fault
]
