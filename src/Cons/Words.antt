-- ===== src/Cons/Words.antt =====
-- The functions on lists of src/array.c that call those on arrays, with what they do to nil and to
-- other objects.
use fth.Base.{
  ℕ, Bool, true, [], ◌∷◌, ℤ, pos, negsuc, Option, none, some, Outcome, ok, throw, fault, ◌>>=◌,
}
use fth.Array.{FArray}
use fth.Array.Access.{make_array_var}
use fth.Array.Copy.{ary_copy, ary_to_array, array_reverse, array_subarray, array_fill}
use fth.Array.Edit.{Argument, array_insert}
use fth.Array.Search.{array_index}
use fth.Cons.{Tail, nil, cons_of, atom}

module _ {ℓ} {A : Type ℓ} where
  -- FTH_LIST_SET
  abbrev pub list_set_flag : FArray A → FArray A
  list_set_flag a = record a { is_list = true }

  -- a call that changes its array and returns it, as a list
  abbrev pub as_list : Outcome (Unit {0}) × FArray A → Outcome (Option (FArray A))
  as_list (ok u, a) = ok (some (list_set_flag a))
  as_list (throw e, a) = throw e
  as_list (fault, a) = fault

  unfoldable pub list_to_array : A → A → Tail A → Outcome (FArray A)
  list_to_array zero_bits nil_object (cons_of a) = ary_to_array zero_bits a
  list_to_array zero_bits nil_object nil = make_array_var zero_bits (nil_object ∷ [])
  list_to_array zero_bits nil_object (atom x) = make_array_var zero_bits (x ∷ [])

  unfoldable pub list_copy : A → (A → A) → Tail A → Outcome (Option (FArray A))
  list_copy zero_bits copy (cons_of a) =
      ary_copy zero_bits copy a >>= (λ ls. ok (some (list_set_flag ls)))
  list_copy zero_bits copy nil = ok none
  list_copy zero_bits copy (atom x) = ok none

  unfoldable pub list_reverse : A → (A → A) → Tail A → Outcome (Tail A)
  list_reverse zero_bits copy (cons_of a) =
      ary_copy zero_bits copy a
      >>= (λ ls. as_list (array_reverse zero_bits copy ls))
      >>= (λ r. elim r [ none ↦ ok nil | some ls ↦ ok (cons_of ls) ])
  list_reverse zero_bits copy nil = ok nil
  list_reverse zero_bits copy (atom x) = ok (atom x)

  -- `value` is not the copy that it is inserted into
  unfoldable pub list_insert :
      (A → A) → A → (ℕ → A) → ℤ → Argument A → Tail A → Outcome (Option (FArray A))
  list_insert copy zero_bits fresh idx value (cons_of a) =
      ary_copy zero_bits copy a >>= (λ ls. as_list (array_insert zero_bits fresh idx value ls))
  list_insert copy zero_bits fresh idx value nil = ok none
  list_insert copy zero_bits fresh idx value (atom x) = ok none

  unfoldable pub list_fill : A → Tail A → Outcome (Unit {0}) × Tail A
  list_fill value (cons_of a) = let r = array_fill value a in (r.0, cons_of r.1)
  list_fill value nil = (ok tt, nil)
  list_fill value (atom x) = (ok tt, atom x)

  unfoldable pub list_index : (A → A → Bool) → A → Tail A → Outcome ℤ
  list_index equal_p key (cons_of a) = array_index equal_p key a
  list_index equal_p key nil = ok (negsuc 0)
  list_index equal_p key (atom x) = ok (negsuc 0)

  unfoldable pub list_head : A → ℤ → Tail A → Outcome (Option (FArray A))
  list_head zero_bits idx (cons_of a) =
      array_subarray zero_bits (pos 0) idx a >>= (λ ls. ok (some (list_set_flag ls)))
  list_head zero_bits idx nil = ok none
  list_head zero_bits idx (atom x) = ok none
