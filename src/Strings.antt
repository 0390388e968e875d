-- ===== src/Strings.antt =====
-- `FString` of src/string.c: the character buffer of a string object, how one is made, and how its
-- buffer grows and shrinks. A character is its byte, and a NUL byte stands behind the last.
pub mod Valid
pub mod Libc
pub mod Ends
pub mod Edit
pub mod Chars
pub mod Make
pub mod Compare
pub mod Rounds
use fth.Base.{
  ℕ, zero, suc, ◌+◌, ◌-◌, ◌/◌, Bool, true, false, ltb, if◌then◌else◌, ℤ, pos, negsuc, List, Outcome,
  ok, throw, fault, out_of_range,
}
use fth.Memory.{Block, calloc, realloc}
use fth.Memory.Slice.{slice}
use fth.Array.{new_seq_length, max_seq_length}

-- `data` points into `buf`: `data_offset` is `data - buf`. `changed_p` stands in the instance that
-- wraps the structure.
pub record FString : Type 0 where
  pub length : ℕ
  pub buf_length : ℕ
  pub top : ℕ
  pub data_offset : ℕ
  pub buf : Block ℕ
  pub changed_p : Bool

-- the characters, first to last
abbrev pub view : FString → List ℕ
view s = slice s.buf.cell s.data_offset s.length

-- A call that changes its string returns how it ended and the string that it leaves.
abbrev pub Method {κ} : Type κ → Type κ
Method B = Outcome B × FString

-- The limit is tested on the length, not on the buffer.
unfoldable pub make_string_len : ℤ → Outcome FString
unfolding calloc
make_string_len (negsuc n) = throw out_of_range
make_string_len (pos len) =
    let top_len = new_seq_length (len + 1) / 3 in
    let buf_len = new_seq_length (len + 1 + top_len) in
    if ltb max_seq_length len
    then throw out_of_range
    else ok (record {
      length = len;
      buf_length = buf_len;
      top = top_len;
      data_offset = top_len;
      buf = calloc 0 buf_len;
      changed_p = false;
    })

-- `buf_length = l`, `buf = realloc (buf, l)`, `data = buf + top`
unfoldable pub string_resize : (ℕ → ℕ) → ℕ → FString → FString
string_resize fresh l s = record s {
  buf_length = l;
  buf = realloc fresh s.buf l;
  data_offset = s.top;
}

-- the test and the growth that `push`, `unshift` and `insert` make for `new_buf_len` bytes
unfoldable pub string_reserve : (ℕ → ℕ) → ℕ → FString → Outcome FString
unfolding string_resize
string_reserve fresh new_buf_len s =
    if ltb s.buf_length new_buf_len
    then (let l = new_seq_length new_buf_len in
        if ltb max_seq_length l then throw out_of_range else ok (string_resize fresh l s))
    else ok s

-- the test and the shrinking of `pop` and `delete`, to `l` bytes
unfoldable pub string_shrink : (ℕ → ℕ) → ℕ → FString → FString
unfolding string_resize
string_shrink fresh l s = if ltb l s.buf_length then string_resize fresh l s else s
