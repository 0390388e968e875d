-- ===== src/Array/Edit.antt =====
-- fth_array_insert and fth_array_delete of src/array.c.
pub mod Delete
pub mod Insert
pub mod Front
pub mod Itself
use fth.Base.{
  ℕ, zero, suc, ◌+◌, ◌-◌, true, ◌==◌, if◌then◌else◌, ℤ, pos, negsuc, [], ◌∷◌, Option, none, some,
  Outcome, ok, throw, fault, out_of_range, wrong_type,
}
use fth.Memory.{Block, load, memmove}
use fth.Array.{FArray, Method, reserve, shrink}
use fth.Array.Access.{in_range, from_end, make_array_var}
use fth.Array.Ends.{array_pop, array_unshift, array_shift}

-- What `insert` is handed as `value`: an object that is no array, another array, or the very array
-- that it inserts into.
pub data Argument {ℓ} (A : Type ℓ) : Type ℓ where
  single : A → Argument A
  elements : FArray A → Argument A
  itself : Argument A

module _ {ℓ} {A : Type ℓ} where
  -- `for (i = n - 1; i >= 0; i--) fth_array_unshift (array, source[i])`; `source` may be read from
  -- the array as it is by then
  unfoldable pub unshift_each :
      (FArray A → ℕ → Option A) → (ℕ → A) → ℕ → FArray A → Method A (Unit {0})
  unshift_each source fresh zero a = (ok tt, a)
  unshift_each source fresh (suc i) a = elim (source a i) [
    | none ↦ (fault, a)
    | some x ↦
        let r = array_unshift fresh x a in
        elim r.0 [
          | ok _ ↦ unshift_each source fresh i r.1
          | throw e ↦ (throw e, r.1)
          | fault ↦ (fault, r.1)
        ]
  ]

  -- `FTH_ARRAY_DATA(b)[i]`
  abbrev pub element_of : FArray A → ℕ → Option A
  element_of b i = load b.buf (b.data_offset + i)

  unfoldable pub insert_front : (ℕ → A) → Argument A → FArray A → Method A (Unit {0})
  insert_front fresh (single v) a = array_unshift fresh v a
  insert_front fresh (elements b) a = unshift_each (λ _. element_of b) fresh b.length a
  insert_front fresh itself a = unshift_each element_of fresh a.length a

  -- the two moves behind the growth; `ins` gives the inserted cells once the tail has moved
  unfoldable pub move_in : ℕ → ℕ → (FArray A → Block A × ℕ) → FArray A → Method A (Unit {0})
  move_in i ins_len ins a =
      elim (memmove a.buf (a.data_offset + i + ins_len) a.buf (a.data_offset + i) (a.length - i)) [
        | none ↦ (fault, a)
        | some b ↦
            let opened = record a { buf = b } in
            elim (memmove b (a.data_offset + i) (ins opened).0 (ins opened).1 ins_len) [
              | none ↦ (fault, opened)
              | some c ↦
                  (ok tt, record a { buf = c; length = a.length + ins_len; changed_p = true })
            ]
      ]

  unfoldable pub insert_at :
      (ℕ → A) → ℕ → ℕ → (FArray A → Block A × ℕ) → FArray A → Method A (Unit {0})
  insert_at fresh i ins_len ins a = elim (reserve fresh (a.top + (a.length + ins_len)) a) [
    | ok grown ↦ move_in i ins_len ins grown
    | throw e ↦ (throw e, a)
    | fault ↦ (fault, a)
  ]

  -- `ins` and its length, by the kind of the argument
  unfoldable pub insert_inside : A → (ℕ → A) → ℕ → Argument A → FArray A → Method A (Unit {0})
  insert_inside zero_bits fresh i (single v) a = elim (make_array_var zero_bits (v ∷ [])) [
    | ok one ↦ insert_at fresh i one.length (λ _. (one.buf, one.data_offset)) a
    | throw e ↦ (throw e, a)
    | fault ↦ (fault, a)
  ]
  insert_inside zero_bits fresh i (elements b) a =
      insert_at fresh i b.length (λ _. (b.buf, b.data_offset)) a
  insert_inside zero_bits fresh i itself a =
      insert_at fresh i a.length (λ opened. (opened.buf, opened.data_offset)) a

  unfoldable pub insert_from : A → (ℕ → A) → ℤ → Argument A → FArray A → Method A (Unit {0})
  insert_from zero_bits fresh (pos zero) value a = insert_front fresh value a
  insert_from zero_bits fresh idx value a = elim (in_range idx a.length) [
    | none ↦ (throw out_of_range, a)
    | some i ↦ insert_inside zero_bits fresh i value a
  ]

  unfoldable pub array_insert : A → (ℕ → A) → ℤ → Argument A → FArray A → Method A (Unit {0})
  array_insert zero_bits fresh idx value a =
      insert_from zero_bits fresh (from_end idx a.length) value a

  -- an element with neighbours on both sides
  unfoldable pub delete_inside : (ℕ → A) → ℕ → FArray A → Method A A
  delete_inside fresh i a = elim (load a.buf (a.data_offset + i)) [
    | none ↦ (fault, a)
    | some value ↦
        let c = shrink fresh (record a { length = a.length - 1 }) in
        elim (memmove c.buf (c.data_offset + i) c.buf (c.data_offset + i + 1) (c.length - i)) [
          | none ↦ (fault, c)
          | some b ↦ (ok value, record c { buf = b; changed_p = true })
        ]
  ]

  unfoldable pub delete_at : A → (ℕ → A) → ℕ → FArray A → Method A A
  delete_at false_object fresh i a =
      if i == 0
      then array_shift false_object fresh a
      else if i == a.length - 1
      then array_pop false_object fresh a
      else delete_inside fresh i a

  unfoldable pub array_delete : A → (ℕ → A) → ℤ → FArray A → Method A A
  array_delete false_object fresh idx a =
      if a.length == 0
      then (throw wrong_type, a)
      else elim (in_range (from_end idx a.length) a.length) [
        | none ↦ (throw out_of_range, a)
        | some i ↦ delete_at false_object fresh i a
      ]
