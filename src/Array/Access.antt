-- ===== src/Array/Access.antt =====
-- ary_ref, ary_set, fth_array_ref and fth_array_set of src/array.c, and the makers of new arrays.
pub mod Index
pub mod Make
pub mod Fresh
use fth.Base.{
  ℕ, zero, suc, ◌+◌, ◌-◌, true, ltb, if◌then◌else◌, ℤ, pos, negsuc, ◌+ℤ◌, is_negative, List, Option,
  none, some, Outcome, ok, throw, fault, out_of_range, get_elem?, length,
}
use fth.Memory.{load, store, store_each}
use fth.Array.{FArray, Method, make_array, make_array_instance}

-- the test `idx < 0 || idx >= len`
unfoldable pub in_range : ℤ → ℕ → Option ℕ
in_range (pos i) len = if ltb i len then some i else none
in_range (negsuc k) len = none

-- `if (idx < 0) idx += len`
unfoldable pub from_end : ℤ → ℕ → ℤ
from_end idx len = if is_negative idx then idx +ℤ pos len else idx

module _ {ℓ} {A : Type ℓ} where
  unfoldable pub ary_ref : ℤ → FArray A → Outcome A
  ary_ref idx a = elim (in_range idx a.length) [
    | none ↦ throw out_of_range
    | some i ↦ elim (load a.buf (a.data_offset + i)) [ none ↦ fault | some x ↦ ok x ]
  ]

  unfoldable pub ary_set : ℤ → A → FArray A → Method A A
  ary_set idx v a = elim (in_range idx a.length) [
    | none ↦ (throw out_of_range, a)
    | some i ↦ elim (store a.buf (a.data_offset + i) v) [
      | none ↦ (fault, a)
      | some b ↦ (ok v, record a { buf = b; changed_p = true })
    ]
  ]

  unfoldable pub array_ref : ℤ → FArray A → Outcome A
  array_ref idx a = ary_ref (from_end idx a.length) a

  unfoldable pub array_set : ℤ → A → FArray A → Method A A
  array_set idx v a = ary_set (from_end idx a.length) v a

  unfoldable pub make_array_len : A → ℤ → Outcome (FArray A)
  make_array_len zero_bits len = elim (make_array zero_bits len) [
    | ok a ↦ ok (make_array_instance a)
    | throw e ↦ throw e
    | fault ↦ fault
  ]

  -- a filling loop over the elements of a fresh array, `for (i = 0; i < n; i++) data[i] = value i`
  unfoldable pub fill_with : (ℕ → Option A) → ℕ → FArray A → Outcome (FArray A)
  fill_with value n a = elim (store_each value a.data_offset 0 n a.buf) [
    | none ↦ fault
    | some b ↦ ok (record a { buf = b })
  ]

  -- A new array or list of `len` elements, which a loop sets. Where the source wraps the structure
  -- into its instance before the loop, the result is the same.
  unfoldable pub make_filled : (FArray A → FArray A) → A → ℤ → (ℕ → Option A) → Outcome (FArray A)
  make_filled instance_of zero_bits len value = elim (make_array zero_bits len) [
    | ok a ↦ elim (fill_with value a.length a) [
      | ok b ↦ ok (instance_of b)
      | throw e ↦ throw e
      | fault ↦ fault
    ]
    | throw e ↦ throw e
    | fault ↦ fault
  ]

  -- the arguments are a list of as many values as `len` says
  unfoldable pub make_array_var : A → List A → Outcome (FArray A)
  make_array_var zero_bits args =
      make_filled make_array_instance zero_bits (pos (length args)) (get_elem? args)

  unfoldable pub make_array_with_init : A → ℤ → A → Outcome (FArray A)
  make_array_with_init zero_bits len init =
      make_filled make_array_instance zero_bits len (λ _. some init)

  unfoldable pub make_empty_array : A → Outcome (FArray A)
  make_empty_array zero_bits = make_array_len zero_bits (pos 0)
