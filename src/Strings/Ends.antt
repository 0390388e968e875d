-- ===== src/Strings/Ends.antt =====
-- fth_string_push, fth_string_pop, fth_string_unshift and fth_string_shift of src/string.c.
pub mod Push
pub mod Pop
pub mod Unshift
pub mod Shift
use fth.Base.{
  ℕ, ◌+◌, ◌-◌, ◌/◌, true, ◌==◌, ltb, if◌then◌else◌, Option, none, some, Outcome, ok, throw, fault,
}
use fth.Memory.{Block, realloc, load, store, memmove}
use fth.Array.{new_seq_length}
use fth.Strings.{FString, Method, string_reserve, string_shrink}

-- What is added: another string, which may be the string representation of some object, or the
-- very string that it is added to.
pub data Added : Type 0 where
  another : FString → Added
  itself : Added

-- `FTH_STRING_LENGTH (add)` and `FTH_STRING_DATA (add)`, where `s` is the string that is added to
abbrev pub added_length : Added → FString → ℕ
added_length (another a) s = a.length
added_length itself s = s.length

abbrev pub added_buf : Added → FString → Block ℕ
added_buf (another a) s = a.buf
added_buf itself s = s.buf

abbrev pub added_data : Added → FString → ℕ
added_data (another a) s = a.data_offset
added_data itself s = s.data_offset

-- `memmove (data + sl, b, al)`, `length += al`, `data[length] = '\0'`
unfoldable pub append_bytes : Added → ℕ → FString → Method (Unit {0})
append_bytes add al s =
    elim (memmove s.buf (s.data_offset + s.length) (added_buf add s) (added_data add s) al) [
      | none ↦ (fault, s)
      | some b ↦ elim (store b (s.data_offset + (s.length + al)) 0) [
        | none ↦ (fault, s)
        | some c ↦ (ok tt, record s { buf = c; length = s.length + al; changed_p = true })
      ]
    ]

unfoldable pub string_push : (ℕ → ℕ) → Added → FString → Method (Unit {0})
unfolding append_bytes
string_push fresh add s =
    let al = added_length add s in
    if al == 0 then (ok tt, s) else elim (string_reserve fresh (s.top + s.length + al + 1) s) [
      | ok grown ↦ append_bytes add al grown
      | throw e ↦ (throw e, s)
      | fault ↦ (fault, s)
    ]

-- `none` is `#f`, from an empty string. The size to shrink to is reckoned before the length is
-- lowered.
unfoldable pub string_pop : (ℕ → ℕ) → FString → Method (Option ℕ)
string_pop fresh s =
    if s.length == 0 then (ok none, s) else elim (load s.buf (s.data_offset + (s.length - 1))) [
      | none ↦ (fault, s)
      | some c ↦ elim (store s.buf (s.data_offset + (s.length - 1)) 0) [
        | none ↦ (fault, s)
        | some b ↦
            let shorter = record s { buf = b; length = s.length - 1; changed_p = true } in
            (ok (some c), string_shrink fresh (new_seq_length (s.top + s.length)) shorter)
      ]
    ]

-- `top = new_top`, `length = new_len`, `memmove (buf + top, b, al)`, `data = buf + top`,
-- `data[length] = '\0'`; the added bytes are read where `data` pointed before
unfoldable pub place_front : Added → ℕ → ℕ → FString → Method (Unit {0})
place_front add al new_top s =
    elim (memmove s.buf new_top (added_buf add s) (added_data add s) al) [
      | none ↦ (fault, s)
      | some b ↦ elim (store b (new_top + (s.length + al)) 0) [
        | none ↦ (fault, s)
        | some c ↦ (
          ok tt,
          record s {
            length = s.length + al;
            top = new_top;
            data_offset = new_top;
            buf = c;
            changed_p = true;
          },
        )
      ]
    ]

-- too few bytes are left in front: the characters move behind a third of the buffer
unfoldable pub unshift_far : (ℕ → ℕ) → Added → ℕ → FString → Method (Unit {0})
unfolding place_front
unshift_far fresh add al s =
    let new_top = s.buf_length / 3 in
    elim (string_reserve fresh (new_top + (s.length + al) + 1) s) [
      | ok grown ↦
          elim (memmove grown.buf (new_top + al) grown.buf grown.data_offset grown.length) [
            | none ↦ (fault, grown)
            | some b ↦ place_front add al new_top (record grown { buf = b })
          ]
      | throw e ↦ (throw e, s)
      | fault ↦ (fault, s)
    ]

-- `top - al < 1` on the signed numbers of the source is `top < al + 1`
unfoldable pub string_unshift : (ℕ → ℕ) → Added → FString → Method (Unit {0})
unfolding unshift_far place_front
string_unshift fresh add s =
    let al = added_length add s in
    if al == 0
    then (ok tt, s)
    else if ltb s.top (al + 1)
    then unshift_far fresh add al s
    else elim (string_reserve fresh (s.top - al + (s.length + al) + 1) s) [
      | ok grown ↦ place_front add al (s.top - al) grown
      | throw e ↦ (throw e, s)
      | fault ↦ (fault, s)
    ]

-- The characters go back to a third of the buffer when they begin past its half; the NUL byte
-- behind them does not go with them, and `data` is set later.
unfoldable pub string_recenter : FString → Option FString
string_recenter s =
    if ltb (s.buf_length / 2) (s.top + 1)
    then elim (memmove s.buf (s.buf_length / 3) s.buf s.data_offset s.length) [
      | none ↦ none
      | some b ↦ some (record s { top = s.buf_length / 3; buf = b })
    ]
    else some s

-- `length--`, `top++`, the shrinking, `data = buf + top`
unfoldable pub string_drop_first : (ℕ → ℕ) → FString → FString
string_drop_first fresh s =
    let l = new_seq_length (s.top + s.length) in
    if ltb l s.buf_length
    then record s {
      length = s.length - 1;
      buf_length = l;
      top = s.top + 1;
      data_offset = s.top + 1;
      buf = realloc fresh s.buf l;
      changed_p = true;
    }
    else record s {
      length = s.length - 1;
      top = s.top + 1;
      data_offset = s.top + 1;
      changed_p = true;
    }

unfoldable pub string_shift : (ℕ → ℕ) → FString → Method (Option ℕ)
string_shift fresh s = if s.length == 0 then (ok none, s) else elim (load s.buf s.data_offset) [
  | none ↦ (fault, s)
  | some c ↦ elim (string_recenter s) [
    | none ↦ (fault, s)
    | some centred ↦ (ok (some c), string_drop_first fresh centred)
  ]
]
