-- ===== src/Simple.antt =====
-- The simple arrays of src/utils.c: pointers without a type in a buffer that grows by `incr` cells at
-- a time. A simple array is one that is there: of NULL the functions do nothing.
pub mod Valid
pub mod Push
pub mod Search
pub mod Delete
pub mod Reverse
use fth.Base.{
  ℕ, zero, suc, ◌+◌, ◌-◌, ◌%◌, Bool, true, false, ◌&&◌, ◌||◌, ◌==◌, ltb, if◌then◌else◌, ℤ, pos,
  negsuc, List, [], ◌∷◌, length, Option, none, some, Outcome, ok, throw, fault,
}
use fth.Memory.{Block, load, store, memmove, realloc}
use fth.Memory.Slice.{slice}
use fth.Array.{FArray, make_array_instance}
use fth.Array.Access.{make_filled, make_empty_array}

-- `cells` is `data`, and none where the pointer is NULL.
pub record SimpleArray {ℓ} (A : Type ℓ) : Type ℓ where
  pub cells : Option (Block A)
  pub length : ℕ
  pub incr : ℕ

-- A call that changes its array returns how it ended and the array that it leaves.
abbrev pub Method {ℓ κ} : Type ℓ → Type κ → Type (ℓ ⊔ κ)
Method A B = Outcome B × SimpleArray A

unfoldable pub make_simple_array {ℓ} : {A : Type ℓ} → ℤ → SimpleArray A
make_simple_array (negsuc n) = record { cells = none; length = 0; incr = 8 }
make_simple_array (pos n) = record {
  cells = none;
  length = 0;
  incr = if n == 0 then 8 else if ltb 128 n then 128 else n;
}

module _ {ℓ} {A : Type ℓ} where
  -- the elements, first to last
  abbrev pub items : Option (Block A) → ℕ → List A
  items none n = []
  items (some b) n = slice b.cell 0 n

  abbrev pub view : SimpleArray A → List A
  view a = items a.cells a.length

  -- `FTH_REALLOC` of NULL allots a block whose cells are all new.
  abbrev pub block_of : (ℕ → A) → Option (Block A) → Block A
  block_of fresh none = record { size = 0; cell = fresh }
  block_of fresh (some b) = b

  unfoldable pub no_data : Option (Block A) → Bool
  no_data none = true
  no_data (some b) = false

  -- the block behind the growth
  unfoldable pub roomy : (ℕ → A) → SimpleArray A → Block A
  unfolding no_data
  roomy fresh a =
      if no_data a.cells || a.length % a.incr == 0
      then realloc fresh (block_of fresh a.cells) (a.length + a.incr)
      else block_of fresh a.cells

  unfoldable pub simple_array_push : (ℕ → A) → A → SimpleArray A → Method A (Unit {0})
  unfolding roomy
  simple_array_push fresh obj a = elim (store (roomy fresh a) a.length obj) [
    | none ↦ (fault, a)
    | some b ↦ (ok tt, record a { cells = some b; length = a.length + 1 })
  ]

  -- `ary->data[i]`
  unfoldable pub cell_at : SimpleArray A → ℕ → Option A
  cell_at a i = elim a.cells [ none ↦ none | some b ↦ load b i ]

  -- `none` is NULL
  unfoldable pub simple_array_ref : SimpleArray A → ℕ → Outcome (Option A)
  unfolding cell_at
  simple_array_ref a i =
      if ltb i a.length then elim (cell_at a i) [ none ↦ fault | some x ↦ ok (some x) ] else ok none

  unfoldable pub simple_array_clear : SimpleArray A → SimpleArray A
  simple_array_clear a = record a { cells = none; length = 0 }

  unfoldable pub simple_array_pop : SimpleArray A → Method A (Option A)
  unfolding cell_at simple_array_clear
  simple_array_pop a =
      if ltb 0 a.length
      then elim (cell_at a (a.length - 1)) [
        | none ↦ (fault, a)
        | some x ↦
            let shorter = record a { length = a.length - 1 } in
            (ok (some x), (if a.length - 1 == 0 then simple_array_clear shorter else shorter))
      ]
      else (ok none, a)

  -- `for (i = start; i < start + n; i++) if (ary->data[i] == obj) return (i)`
  unfoldable pub index_from : (A → A → Bool) → A → SimpleArray A → ℕ → ℕ → Outcome (Option ℕ)
  unfolding cell_at
  index_from same obj a i zero = ok none
  index_from same obj a i (suc n) =
      let rest = index_from same obj a (suc i) n in
      elim (cell_at a i) [ none ↦ fault | some x ↦ if same x obj then ok (some i) else rest ]

  -- `none` is -1; `same` compares pointers
  unfoldable pub simple_array_index : (A → A → Bool) → A → SimpleArray A → Outcome (Option ℕ)
  unfolding index_from
  simple_array_index same obj a =
      if ltb 0 a.length then index_from same obj a 0 a.length else ok none

  -- `for (i = n - 1; i >= 0; i--) if (ary->data[i] == obj) return (i)`
  unfoldable pub rindex_from : (A → A → Bool) → A → SimpleArray A → ℕ → Outcome (Option ℕ)
  unfolding cell_at
  rindex_from same obj a zero = ok none
  rindex_from same obj a (suc i) =
      let rest = rindex_from same obj a i in
      elim (cell_at a i) [ none ↦ fault | some x ↦ if same x obj then ok (some i) else rest ]

  unfoldable pub simple_array_rindex : (A → A → Bool) → A → SimpleArray A → Outcome (Option ℕ)
  unfolding rindex_from
  simple_array_rindex same obj a =
      if ltb 0 a.length then rindex_from same obj a a.length else ok none

  unfoldable pub simple_array_member_p : (A → A → Bool) → A → SimpleArray A → Outcome Bool
  unfolding simple_array_index
  simple_array_member_p same obj a = elim (simple_array_index same obj a) [
    | ok found ↦ elim found [ none ↦ ok false | some i ↦ ok true ]
    | throw e ↦ throw e
    | fault ↦ fault
  ]

  -- the memmove of `delete`
  unfoldable pub close_gap : ℕ → SimpleArray A → Option (SimpleArray A)
  close_gap ui a = elim a.cells [
    | none ↦ none
    | some b ↦ elim (memmove b ui b (ui + 1) (a.length - ui)) [
      | none ↦ none
      | some c ↦ some (record a { cells = some c })
    ]
  ]

  -- behind the search: the cell `i` goes
  unfoldable pub remove_at : A → ℕ → SimpleArray A → Method A (Option A)
  unfolding close_gap simple_array_clear
  remove_at obj i a =
      let shorter = record a { length = a.length - 1 } in
      if a.length - 1 == 0
      then (ok (some obj), simple_array_clear shorter)
      else if ltb i (a.length - 1)
      then elim (close_gap i shorter) [ none ↦ (fault, shorter) | some c ↦ (ok (some obj), c) ]
      else (ok (some obj), shorter)

  -- `delete`, with the index that `find` gives; `none` is NULL
  unfoldable pub delete_found : Outcome (Option ℕ) → A → SimpleArray A → Method A (Option A)
  unfolding remove_at
  delete_found found obj a = elim found [
    | ok place ↦ elim place [ none ↦ (ok none, a) | some i ↦ remove_at obj i a ]
    | throw e ↦ (throw e, a)
    | fault ↦ (fault, a)
  ]

  unfoldable pub simple_array_delete : (A → A → Bool) → A → SimpleArray A → Method A (Option A)
  unfolding delete_found
  simple_array_delete same obj a = delete_found (simple_array_index same obj a) obj a

  unfoldable pub simple_array_rdelete : (A → A → Bool) → A → SimpleArray A → Method A (Option A)
  unfolding delete_found
  simple_array_rdelete same obj a = delete_found (simple_array_rindex same obj a) obj a

  unfoldable pub simple_array_to_array : A → SimpleArray A → Outcome (FArray A)
  unfolding cell_at
  simple_array_to_array zero_bits a =
      if ltb 0 a.length
      then make_filled make_array_instance zero_bits (pos a.length) (cell_at a)
      else make_empty_array zero_bits

  -- `for (i = start; i < start + n; i++)`, with `equal` for fth_object_equal_p
  unfoldable pub equal_cells : (A → A → Bool) → SimpleArray A → SimpleArray A → ℕ → ℕ → Outcome Bool
  unfolding cell_at
  equal_cells equal a b i zero = ok true
  equal_cells equal a b i (suc n) =
      let rest = equal_cells equal a b (suc i) n in
      elim (cell_at a i) [
        | none ↦ fault
        | some x ↦ elim (cell_at b i) [
          | none ↦ fault
          | some y ↦ if equal x y then rest else ok false
        ]
      ]

  unfoldable pub simple_array_equal_p :
      (A → A → Bool) → SimpleArray A → SimpleArray A → Outcome Bool
  unfolding equal_cells
  simple_array_equal_p equal a b =
      if a.length == b.length && a.incr == b.incr
      then equal_cells equal a b 0 a.length
      else ok false

  unfoldable pub simple_array_set : ℕ → A → SimpleArray A → Method A (Unit {0})
  simple_array_set i obj a =
      if ltb i a.length
      then elim a.cells [
        | none ↦ (fault, a)
        | some b ↦ elim (store b i obj) [
          | none ↦ (fault, a)
          | some c ↦ (ok tt, record a { cells = some c })
        ]
      ]
      else (ok tt, a)

  -- `for (i = 0; i < len; i++) simple_array_push (ary, va_arg (list, void *))`
  unfoldable pub push_each : (ℕ → A) → List A → SimpleArray A → Method A (Unit {0})
  unfolding simple_array_push
  push_each fresh [] a = (ok tt, a)
  push_each fresh (x ∷ xs) a =
      let r = simple_array_push fresh x a in
      let rest = push_each fresh xs r.1 in
      elim r.0 [ ok _ ↦ rest | throw e ↦ (throw e, r.1) | fault ↦ (fault, r.1) ]

  -- the arguments and their number, which C counts apart
  unfoldable pub make_simple_array_var : (ℕ → A) → List A → Method A (Unit {0})
  unfolding push_each
  make_simple_array_var fresh args = push_each fresh args (make_simple_array (pos (length args)))

  -- `for (i = n - 1; i >= 0; i--) simple_array_push (new, ary->data[i])`
  unfoldable pub push_back_from : (ℕ → A) → SimpleArray A → ℕ → SimpleArray A → Method A (Unit {0})
  unfolding simple_array_push cell_at
  push_back_from fresh a zero new = (ok tt, new)
  push_back_from fresh a (suc i) new = elim (cell_at a i) [
    | none ↦ (fault, new)
    | some x ↦
        let r = simple_array_push fresh x new in
        let rest = push_back_from fresh a i r.1 in
        elim r.0 [ ok _ ↦ rest | throw e ↦ (throw e, r.1) | fault ↦ (fault, r.1) ]
  ]

  -- `none` is NULL
  unfoldable pub simple_array_reverse : (ℕ → A) → SimpleArray A → Outcome (Option (SimpleArray A))
  unfolding push_back_from
  simple_array_reverse fresh a =
      if ltb 0 a.length
      then (let r = push_back_from fresh a a.length (make_simple_array (pos a.incr)) in
          elim r.0 [ ok _ ↦ ok (some r.1) | throw e ↦ throw e | fault ↦ fault ])
      else ok none
