-- ===== src/Array.antt =====
-- `FArray` of src/array.c: the buffer that arrays, lists and assoc arrays share, how one is
-- made, and how its buffer grows and shrinks.
pub mod Valid
pub mod Ends
pub mod Access
pub mod Edit
pub mod Copy
pub mod Search
use fth.Base.{
  ℕ, zero, suc, ◌+◌, ◌-◌, ◌*◌, ◌/◌, ◌≡◌, Bool, true, false, List, arith, ltb, if◌then◌else◌, ℤ, pos,
  negsuc, Outcome, ok, throw, fault, out_of_range,
}
use fth.Memory.{Block, calloc, realloc}
use fth.Memory.Slice.{slice}

-- `data` points into `buf`: `data_offset` is `data - buf`. `is_array`, `is_list` and `is_assoc`
-- are the bits of `type`; `changed_p` stands in the instance that wraps the structure.
pub record FArray {ℓ} (A : Type ℓ) : Type ℓ where
  pub is_array : Bool
  pub is_list : Bool
  pub is_assoc : Bool
  pub length : ℕ
  pub buf_length : ℕ
  pub top : ℕ
  pub data_offset : ℕ
  pub buf : Block A
  pub changed_p : Bool

abbrev pub default_seq_length : ℕ
default_seq_length = 128

abbrev pub new_seq_length : ℕ → ℕ
new_seq_length len = (len / default_seq_length + 1) * default_seq_length

-- `FTH_SIZEOF_VOID_P << 20` with pointers of eight bytes
abbrev pub max_seq_length : ℕ
max_seq_length = 8388608

-- the elements, first to last
abbrev pub view {ℓ} : {A : Type ℓ} → FArray A → List A
view a = slice a.buf.cell a.data_offset a.length

-- A method returns how it ended and the array that it leaves.
abbrev pub Method {ℓ κ} : Type ℓ → Type κ → Type (ℓ ⊔ κ)
Method A B = Outcome B × FArray A

module _ {ℓ} {A : Type ℓ} where
  -- `zero_bits` is the value of the cleared cells
  unfoldable pub make_array : A → ℤ → Outcome (FArray A)
  unfolding calloc
  make_array zero_bits (negsuc n) = throw out_of_range
  make_array zero_bits (pos len) =
      let top_len = new_seq_length len / 3 in
      let buf_len = new_seq_length (len + top_len) in
      if ltb max_seq_length buf_len
      then throw out_of_range
      else ok (record {
        is_array = false;
        is_list = false;
        is_assoc = false;
        length = len;
        buf_length = buf_len;
        top = top_len;
        data_offset = top_len;
        buf = calloc zero_bits buf_len;
        changed_p = false;
      })

  -- the instance is marked as changed when it is made
  unfoldable pub make_array_instance : FArray A → FArray A
  make_array_instance a = record a { is_array = true; changed_p = true }

  unfoldable pub make_list_instance : FArray A → FArray A
  make_list_instance a = record a { is_list = true; changed_p = true }

  -- `buf_length = len`, `buf = realloc (buf, len)`, `data = buf + top`
  unfoldable pub resize : (ℕ → A) → ℕ → FArray A → FArray A
  resize fresh len a = record a {
    buf_length = len;
    buf = realloc fresh a.buf len;
    data_offset = a.top;
  }

  -- the test and the growth that `push`, `unshift` and `insert` make for `new_buf_len` cells
  unfoldable pub reserve : (ℕ → A) → ℕ → FArray A → Outcome (FArray A)
  unfolding resize
  reserve fresh new_buf_len a =
      if ltb a.buf_length new_buf_len
      then (let len = new_seq_length new_buf_len in
          if ltb max_seq_length len then throw out_of_range else ok (resize fresh len a))
      else ok a

  -- the test and the shrinking that `pop` and `delete` make after `length--`
  unfoldable pub shrink : (ℕ → A) → FArray A → FArray A
  unfolding resize
  shrink fresh a =
      let len = new_seq_length (a.top + a.length) in
      if ltb len a.buf_length then resize fresh len a else a
