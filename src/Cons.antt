-- ===== src/Cons.antt =====
-- Lists of src/array.c: nil, or arrays that are marked as lists. fth_list_length, fth_cons,
-- fth_cons_2, fth_car with its kin, fth_cdr and fth_cddr, and the makers of lists.
pub mod Front
pub mod Rest
pub mod Slice
pub mod Words
use fth.Base.{
  ℕ, suc, ltb, ◌+◌, Bool, true, false, List, [], ◌∷◌, ℤ, pos, negsuc, Option, none, some, Outcome,
  ok, throw, fault, ◌>>=◌, length, get_elem?,
}
use fth.Memory.{load}
use fth.Array.{FArray, make_list_instance}
use fth.Array.Access.{make_filled, array_ref, array_set}
use fth.Array.Ends.{array_unshift}
use fth.Array.Copy.{array_subarray}

-- An argument that may be a list. `FTH_CONS_P` is `FTH_ARRAY_P`, so that every array is a cons.
pub data Tail {ℓ} (A : Type ℓ) : Type ℓ where
  nil : Tail A
  cons_of : FArray A → Tail A
  atom : A → Tail A

module _ {ℓ} {A : Type ℓ} where
  unfoldable pub list_length : Tail A → ℤ
  list_length nil = pos 0
  list_length (cons_of a) = pos a.length
  list_length (atom x) = negsuc 0

  -- the test `fth_list_length (list) > idx`
  abbrev pub longer_than : Tail A → ℕ → Bool
  longer_than list idx = elim (list_length list) [ pos n ↦ ltb idx n | negsuc k ↦ false ]

  unfoldable pub make_list_var : A → List A → Outcome (FArray A)
  make_list_var zero_bits args =
      make_filled make_list_instance zero_bits (pos (length args)) (get_elem? args)

  unfoldable pub make_list_with_init : A → ℤ → A → Outcome (FArray A)
  make_list_with_init zero_bits len init =
      make_filled make_list_instance zero_bits len (λ _. some init)

  -- `fth_array_unshift (list, val)`, which changes the list and returns it
  unfoldable pub unshifted : (ℕ → A) → A → FArray A → Outcome (FArray A)
  unshifted fresh val a =
      let r = array_unshift fresh val a in
      elim r.0 [ ok _ ↦ ok r.1 | throw e ↦ throw e | fault ↦ fault ]

  unfoldable pub cons : A → (ℕ → A) → A → Tail A → Outcome (FArray A)
  cons zero_bits fresh val nil = make_list_var zero_bits (val ∷ [])
  cons zero_bits fresh val (cons_of a) = unshifted fresh val a
  cons zero_bits fresh val (atom x) = make_list_var zero_bits (val ∷ x ∷ [])

  unfoldable pub cons_2 : A → (ℕ → A) → A → A → Tail A → Outcome (FArray A)
  cons_2 zero_bits fresh val1 val2 nil = make_list_var zero_bits (val1 ∷ val2 ∷ [])
  cons_2 zero_bits fresh val1 val2 (cons_of a) = unshifted fresh val2 a >>= unshifted fresh val1
  cons_2 zero_bits fresh val1 val2 (atom x) = make_list_var zero_bits (val1 ∷ val2 ∷ x ∷ [])

  -- `car`, `cadr`, `caddr` and `cadddr` are those of the indices 0 to 3
  unfoldable pub car_at : A → ℕ → Tail A → Outcome A
  car_at nil_object idx (cons_of a) = elim (longer_than (cons_of a) idx) [
    | false ↦ ok nil_object
    | true ↦ elim (load a.buf (a.data_offset + idx)) [ none ↦ fault | some x ↦ ok x ]
  ]
  car_at nil_object idx nil = ok nil_object
  car_at nil_object idx (atom x) = ok nil_object

  -- `cdr` and `cddr` are those of the indices 1 and 2; `none` is nil
  unfoldable pub cdr_at : A → ℕ → Tail A → Outcome (Option (FArray A))
  cdr_at zero_bits idx (cons_of a) = elim (longer_than (cons_of a) idx) [
    | false ↦ ok none
    | true ↦
        array_subarray zero_bits (pos idx) (negsuc 0) a
        >>= (λ ls. ok (some (record ls { is_list = true })))
  ]
  cdr_at zero_bits idx nil = ok none
  cdr_at zero_bits idx (atom x) = ok none

  unfoldable pub list_ref : A → ℤ → Tail A → Outcome A
  list_ref nil_object idx (cons_of a) = array_ref idx a
  list_ref nil_object idx nil = ok nil_object
  list_ref nil_object idx (atom x) = ok nil_object

  -- the value is returned also where there is no list to store it in
  unfoldable pub list_set : ℤ → A → Tail A → Outcome A × Tail A
  list_set idx value (cons_of a) = let r = array_set idx value a in (r.0, cons_of r.1)
  list_set idx value nil = (ok value, nil)
  list_set idx value (atom x) = (ok value, atom x)
