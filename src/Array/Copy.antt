-- ===== src/Array/Copy.antt =====
-- The functions of src/array.c that make a new array from an old one, or overwrite all elements:
-- ary_to_array, ary_copy, fth_array_to_list, fth_array_map, fth_array_append, fth_array_reverse,
-- fth_array_fill, fth_array_clear and fth_array_subarray.
pub mod Whole
pub mod Append
pub mod Subarray
use fth.Base.{
  ℕ, zero, suc, ◌+◌, ◌-◌, true, ◌||◌, ◌==◌, ltb, if◌then◌else◌, ℤ, pos, negsuc, ◌+ℤ◌, is_negative,
  [], ◌∷◌, Option, none, some, Outcome, ok, throw, fault, out_of_range,
}
use fth.Memory.{load, store, memmove, store_each}
use fth.Array.{FArray, Method, make_array_instance, make_list_instance}
use fth.Array.Access.{in_range, from_end, make_array_len, make_filled, fill_with}
use fth.Array.Edit.{element_of}

abbrev pub map_option {ℓ κ} : {A : Type ℓ} {B : Type κ} → (A → B) → Option A → Option B
map_option f none = none
map_option f (some x) = some (f x)

-- `if (end < 0) { end += len; end++; }`
unfoldable pub end_of : ℤ → ℕ → ℤ
end_of e len = if is_negative e then e +ℤ pos len +ℤ pos 1 else e

-- `if (end < start || end > len) end = len`
unfoldable pub clip_end : ℕ → ℕ → ℤ → ℕ
clip_end start len (negsuc k) = len
clip_end start len (pos e) = if ltb e start || ltb len e then len else e

module _ {ℓ} {A : Type ℓ} (zero_bits : A) where
  unfoldable pub ary_to_array : FArray A → Outcome (FArray A)
  ary_to_array a = elim (make_array_len zero_bits (pos a.length)) [
    | ok new ↦ elim (memmove new.buf new.data_offset a.buf a.data_offset a.length) [
      | none ↦ fault
      | some b ↦ ok (record new { buf = b })
    ]
    | throw e ↦ throw e
    | fault ↦ fault
  ]

  -- `copy` is fth_object_copy
  unfoldable pub ary_copy : (A → A) → FArray A → Outcome (FArray A)
  ary_copy copy a =
      make_filled make_array_instance zero_bits (pos a.length)
        (λ i. map_option copy (element_of a i))

  unfoldable pub array_to_list : FArray A → Outcome (FArray A)
  array_to_list a = make_filled make_list_instance zero_bits (pos a.length) (element_of a)

  unfoldable pub array_map : (A → A) → FArray A → Outcome (FArray A)
  array_map f a =
      make_filled make_array_instance zero_bits (pos a.length) (λ i. map_option f (element_of a i))

  -- `for (i = 0, j = len - 1; i < len; i++, j--) data (array)[i] = data (tmp)[j]`; `changed_p` is not set
  unfoldable pub array_reverse : (A → A) → FArray A → Method A (Unit {0})
  array_reverse copy a = if a.length == 0 then (ok tt, a) else elim (ary_copy copy a) [
    | ok tmp ↦ elim (fill_with (λ i. element_of tmp (a.length - 1 - i)) a.length a) [
      | ok b ↦ (ok tt, b)
      | throw e ↦ (throw e, a)
      | fault ↦ (fault, a)
    ]
    | throw e ↦ (throw e, a)
    | fault ↦ (fault, a)
  ]

  -- the loop over the elements of `array`, as it stands in `append`
  unfoldable pub append_from : FArray A → FArray A → Outcome (FArray A)
  append_from a result = fill_with (element_of a) a.length result

  -- `value` is an array
  unfoldable pub array_append : FArray A → FArray A → Outcome (FArray A)
  array_append a value = elim (make_array_len zero_bits (pos (a.length + value.length))) [
    | ok result ↦ elim (append_from a result) [
      | ok front ↦
          elim (store_each (λ i. element_of value (i - a.length)) front.data_offset a.length
            value.length front.buf) [ none ↦ fault | some b ↦ ok (record front { buf = b }) ]
      | throw e ↦ throw e
      | fault ↦ fault
    ]
    | throw e ↦ throw e
    | fault ↦ fault
  ]

  -- `value` is no array
  unfoldable pub array_append_single : FArray A → A → Outcome (FArray A)
  array_append_single a value = elim (make_array_len zero_bits (pos (a.length + 1))) [
    | ok result ↦ elim (append_from a result) [
      | ok front ↦ elim (store front.buf (front.data_offset + a.length) value) [
        | none ↦ fault
        | some b ↦ ok (record front { buf = b })
      ]
      | throw e ↦ throw e
      | fault ↦ fault
    ]
    | throw e ↦ throw e
    | fault ↦ fault
  ]

  -- The number of bytes to move is that of the whole array, `len`, and not of the part.
  unfoldable pub copy_part : ℕ → ℕ → FArray A → Outcome (FArray A)
  copy_part s e a = elim (make_array_len zero_bits (pos (e - s))) [
    | ok result ↦ elim (memmove result.buf result.data_offset a.buf (a.data_offset + s) a.length) [
      | none ↦ fault
      | some b ↦ ok (record result { buf = b })
    ]
    | throw x ↦ throw x
    | fault ↦ fault
  ]

  unfoldable pub array_subarray : ℤ → ℤ → FArray A → Outcome (FArray A)
  array_subarray start end a = elim (in_range (from_end start a.length) a.length) [
    | none ↦ throw out_of_range
    | some s ↦ copy_part s (clip_end s a.length (end_of end a.length)) a
  ]

module _ {ℓ} {A : Type ℓ} where
  -- `fill`, and `clear` with `#f` for the value
  unfoldable pub array_fill : A → FArray A → Method A (Unit {0})
  array_fill v a = elim (fill_with (λ _. some v) a.length a) [
    | ok b ↦ (ok tt, record b { changed_p = true })
    | throw e ↦ (throw e, a)
    | fault ↦ (fault, a)
  ]

  unfoldable pub array_clear : A → FArray A → Method A (Unit {0})
  array_clear false_object a = array_fill false_object a
