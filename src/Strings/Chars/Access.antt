-- ===== src/Strings/Chars/Access.antt =====
-- fth_string_char_ref, fth_string_char_set and their C variants.
use fth.Base.{
  ℕ, ◌+◌, ◌<◌, ◌≡◌, refl, ◌∙◌, inr, set, length, arith, ℤ, Option, none, some, throw, out_of_range,
  wrong_type,
}
use fth.Memory.Slice.{length-slice, get_elem?-slice}
use fth.Memory.Writes.{load-in, store-in, slice-update_at, update_ne}
use fth.Array.Access.{in_range, from_end}
use fth.Array.Access.Index.{position, position-lt, in_range-from_end, element, elem_at}
use fth.Strings.{FString, Method, view}
use fth.Strings.Valid.{IsValid, IsBounded, Yields}
use fth.Strings.Chars.{
  Value, character, other, str_ref, str_set, put_char, string_c_char_ref, string_char_ref,
  string_c_char_set, string_char_set,
}

ref_at :
    (s : FString) (o : Option ℕ)
    → IsBounded s
    → ((i : ℕ) → o ≡ some i → i < s.length)
    → (idx : ℤ) → in_range idx s.length ≡ o
    → str_ref idx s ≡ element (elem_at (view s) o)
unfolding str_ref
ref_at s none b lt idx e = rw (e, str_ref)
ref_at s (some i) b lt idx e =
    let h = lt i refl in
    rw (
      e,
      str_ref,
      load-in s.buf (s.data_offset + i) (omega (arith, b.sized, b.aimed, b.fits)),
      get_elem?-slice s.buf.cell s.data_offset s.length i h,
    )

-- `string_char_ref` gives the character at the position that the index means, counted from the end
-- where it is negative, and raises OUT-OF-RANGE exactly where there is none.
pub string_char_ref-view :
    (idx : ℤ) (s : FString)
    → IsBounded s
    → string_char_ref idx s ≡ element (elem_at (view s) (position idx (length (view s))))
unfolding string_char_ref
string_char_ref-view idx s b = rw (length-slice s.buf.cell s.data_offset s.length) (
    ref_at s (position idx s.length) b (position-lt idx s.length) (from_end idx s.length)
      (in_range-from_end idx s.length))

-- The C function reads the same character.
pub string_c_char_ref-string_char_ref :
    (idx : ℤ) (s : FString) → string_c_char_ref idx s ≡ string_char_ref idx s
unfolding string_c_char_ref string_char_ref str_ref
string_c_char_ref-string_char_ref idx s = refl

put_char-Yields :
    (i c : ℕ) (s : FString)
    → IsValid s
    → i < s.length
    → Yields (put_char i c s) tt (set (view s) i c)
unfolding put_char
put_char-Yields i c s v lt =
    let b = v.bounded in
    let put = store-in s.buf (s.data_offset + i) c (omega (arith, b.sized, b.aimed, b.fits)) in
    rw (put, put_char)
      (record {
        returns = refl;
        valid = record {
          bounded = record {
            sized = b.sized;
            aimed = b.aimed;
            fits = b.fits;
            clear = b.clear;
            wide = b.wide;
          };
          ended =
              update_ne s.buf.cell (s.data_offset + i) c (s.data_offset + s.length)
                (inr (omega arith))
              ∙ v.ended;
        };
        holds = slice-update_at s.buf.cell c s.data_offset s.length i (s.data_offset + i) lt refl;
      })

-- what a write of a value does, by the position that the index means
abbrev pub Stores : Method (Unit {0}) → FString → Option ℕ → Value → Type 0
Stores r s none value = r ≡ (throw out_of_range, s)
Stores r s (some i) other = r ≡ (throw wrong_type, s)
Stores r s (some i) (character c) = Yields r tt (set (view s) i c)

set_at :
    (s : FString) (value : Value) (o : Option ℕ)
    → IsValid s
    → ((i : ℕ) → o ≡ some i → i < s.length)
    → (idx : ℤ) → in_range idx s.length ≡ o
    → Stores (str_set idx value s) s o value
unfolding str_set
set_at s value none v lt idx e = rw (e, str_set) refl
set_at s other (some i) v lt idx e = rw (e, str_set) refl
set_at s (character c) (some i) v lt idx e = rw (e, str_set) (put_char-Yields i c s v (lt i refl))

-- On a valid string `string_char_set` stores a character at the position that the index means and
-- leaves all others as they were and the string valid; it raises OUT-OF-RANGE without such a
-- position, and WRONG-TYPE-ARG for what is no character, and then changes nothing.
pub string_char_set-Stores :
    (idx : ℤ) (value : Value) (s : FString)
    → IsValid s
    → Stores (string_char_set idx value s) s (position idx s.length) value
unfolding string_char_set
string_char_set-Stores idx value s v =
    set_at s value (position idx s.length) v (position-lt idx s.length) (from_end idx s.length)
      (in_range-from_end idx s.length)

-- The C function writes the same.
pub string_c_char_set-string_char_set :
    (idx : ℤ) (c : ℕ) (s : FString)
    → string_c_char_set idx c s ≡ string_char_set idx (character c) s
unfolding string_c_char_set string_char_set str_set put_char
string_c_char_set-string_char_set idx c s = refl
