-- ===== src/Array/Ends.antt =====
-- fth_array_push, fth_array_pop, fth_array_unshift and fth_array_shift of src/array.c.
pub mod Push
pub mod Pop
pub mod Unshift
pub mod Shift
use fth.Base.{
  ℕ, ◌+◌, ◌-◌, ◌/◌, true, ◌==◌, ltb, if◌then◌else◌, Option, none, some, Outcome, ok, throw, fault,
}
use fth.Memory.{realloc, load, store, memmove}
use fth.Array.{FArray, Method, new_seq_length, reserve, shrink}

module _ {ℓ} {A : Type ℓ} where
  -- `data[length] = value; length++`
  unfoldable pub store_last : A → FArray A → Method A (Unit {0})
  store_last v a = elim (store a.buf (a.data_offset + a.length) v) [
    | none ↦ (fault, a)
    | some b ↦ (ok tt, record a { buf = b; length = a.length + 1; changed_p = true })
  ]

  unfoldable pub array_push : (ℕ → A) → A → FArray A → Method A (Unit {0})
  unfolding store_last
  array_push fresh v a = elim (reserve fresh (a.top + (a.length + 1)) a) [
    | ok grown ↦ store_last v grown
    | throw e ↦ (throw e, a)
    | fault ↦ (fault, a)
  ]

  -- `#f` from an empty array
  unfoldable pub array_pop : A → (ℕ → A) → FArray A → Method A A
  array_pop false_object fresh a =
      if a.length == 0
      then (ok false_object, a)
      else elim (load a.buf (a.data_offset + (a.length - 1))) [
        | none ↦ (fault, a)
        | some result ↦ (
          ok result,
          record (shrink fresh (record a { length = a.length - 1 })) { changed_p = true },
        )
      ]

  -- `top = new_top; length = new_len; data = buf + top; data[0] = value`
  unfoldable pub store_first : A → ℕ → FArray A → Method A (Unit {0})
  store_first v new_top a = elim (store a.buf new_top v) [
    | none ↦ (fault, a)
    | some b ↦ (
      ok tt,
      record a {
        top = new_top;
        length = a.length + 1;
        data_offset = new_top;
        buf = b;
        changed_p = true;
      },
    )
  ]

  -- no cell is left in front: the elements move to one cell behind a third of the buffer
  unfoldable pub unshift_moved : A → ℕ → FArray A → Method A (Unit {0})
  unfolding store_first
  unshift_moved v new_top a = elim (memmove a.buf (new_top + 1) a.buf a.data_offset a.length) [
    | none ↦ (fault, a)
    | some b ↦ store_first v new_top (record a { buf = b })
  ]

  -- `top - 1` is used where it is at least 1 only, so that it does not matter here that it stops at
  -- 0. The new top of the first branch is a third of the buffer as it was.
  unfoldable pub array_unshift : (ℕ → A) → A → FArray A → Method A (Unit {0})
  unfolding unshift_moved
  array_unshift fresh v a =
      if ltb (a.top - 1) 1
      then elim (reserve fresh (a.buf_length / 3 + (a.length + 1)) a) [
        | ok grown ↦ unshift_moved v (a.buf_length / 3) grown
        | throw e ↦ (throw e, a)
        | fault ↦ (fault, a)
      ]
      else elim (reserve fresh (a.top - 1 + (a.length + 1)) a) [
        | ok grown ↦ store_first v (a.top - 1) grown
        | throw e ↦ (throw e, a)
        | fault ↦ (fault, a)
      ]

  -- the elements go back to a third of the buffer when they begin past its half; `data` is set later
  unfoldable pub recenter : FArray A → Option (FArray A)
  recenter a =
      if ltb (a.buf_length / 2) (a.top + 1)
      then elim (memmove a.buf (a.buf_length / 3) a.buf a.data_offset a.length) [
        | none ↦ none
        | some b ↦ some (record a { top = a.buf_length / 3; buf = b })
      ]
      else some a

  -- `length--; top++`, the shrinking for what is left, `data = buf + top`
  unfoldable pub drop_first : (ℕ → A) → FArray A → FArray A
  drop_first fresh a =
      let len = new_seq_length (a.top + (a.length - 1)) in
      if ltb len a.buf_length
      then record a {
        length = a.length - 1;
        buf_length = len;
        top = a.top + 1;
        data_offset = a.top + 1;
        buf = realloc fresh a.buf len;
        changed_p = true;
      }
      else record a {
        length = a.length - 1;
        top = a.top + 1;
        data_offset = a.top + 1;
        changed_p = true;
      }

  unfoldable pub array_shift : A → (ℕ → A) → FArray A → Method A A
  array_shift false_object fresh a =
      if a.length == 0 then (ok false_object, a) else elim (load a.buf a.data_offset) [
        | none ↦ (fault, a)
        | some result ↦ elim (recenter a) [
          | none ↦ (fault, a)
          | some centred ↦ (ok result, drop_first fresh centred)
        ]
      ]
