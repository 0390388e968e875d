-- ===== src/Array/Search.antt =====
-- The functions of src/array.c that look for an element or go by a test: fth_array_index,
-- fth_array_member_p, fth_array_find, ary_equal_p, fth_array_delete_key, fth_array_compact,
-- fth_array_uniq and fth_array_reject.
pub mod Find
pub mod Keep
pub mod Uniq
pub mod Reject
use fth.Base.{
  ℕ, zero, suc, ◌+◌, ◌-◌, Bool, true, false, ◌==◌, ltb, if◌then◌else◌, ℤ, pos, negsuc, Option, none,
  some, Outcome, ok, throw, fault,
}
use fth.Array.{FArray, Method}
use fth.Array.Ends.{array_push}
use fth.Array.Edit.{element_of, array_delete}
use fth.Array.Copy.{ary_copy}

module _ {ℓ} {A : Type ℓ} where
  -- `for (; i < len; i++) if (test (data[i])) …`, with `n` rounds left: the first hit
  unfoldable pub scan : (A → Bool) → FArray A → ℕ → ℕ → Outcome (Option (ℕ × A))
  scan test a i zero = ok none
  scan test a i (suc n) =
      let rest = scan test a (suc i) n in
      elim (element_of a i) [ none ↦ fault | some x ↦ if test x then ok (some (i, x)) else rest ]

  -- `equal` is fth_object_equal_p
  unfoldable pub array_index : (A → A → Bool) → A → FArray A → Outcome ℤ
  array_index equal key a = elim (scan (λ x. equal x key) a 0 a.length) [
    | ok none ↦ ok (negsuc 0)
    | ok (some (i, _)) ↦ ok (pos i)
    | throw e ↦ throw e
    | fault ↦ fault
  ]

  unfoldable pub array_member_p : (A → A → Bool) → A → FArray A → Outcome Bool
  array_member_p equal item a = elim (scan (λ x. equal x item) a 0 a.length) [
    | ok none ↦ ok false
    | ok (some _) ↦ ok true
    | throw e ↦ throw e
    | fault ↦ fault
  ]

  unfoldable pub array_find : A → (A → A → Bool) → A → FArray A → Outcome A
  array_find false_object equal key a = elim (scan (λ x. equal x key) a 0 a.length) [
    | ok none ↦ ok false_object
    | ok (some (_, x)) ↦ ok x
    | throw e ↦ throw e
    | fault ↦ fault
  ]

  unfoldable pub equal_from : (A → A → Bool) → FArray A → FArray A → ℕ → ℕ → Outcome Bool
  equal_from equal self obj i zero = ok true
  equal_from equal self obj i (suc n) =
      let rest = equal_from equal self obj (suc i) n in
      elim (element_of self i) [
        | none ↦ fault
        | some a ↦ elim (element_of obj i) [
          | none ↦ fault
          | some b ↦ if equal a b then rest else ok false
        ]
      ]

  -- `same` is `self == obj`, the test of the two references
  unfoldable pub ary_equal_p : (A → A → Bool) → Bool → FArray A → FArray A → Outcome Bool
  unfolding equal_from
  ary_equal_p equal same self obj =
      if same
      then ok true
      else if self.length == obj.length
      then equal_from equal self obj 0 self.length
      else ok false

  unfoldable pub array_delete_key : A → (ℕ → A) → (A → A → Bool) → A → FArray A → Method A A
  array_delete_key false_object fresh equal key a = elim (scan (λ x. equal x key) a 0 a.length) [
    | ok none ↦ (ok false_object, a)
    | ok (some (i, _)) ↦ array_delete false_object fresh (pos i) a
    | throw e ↦ (throw e, a)
    | fault ↦ (fault, a)
  ]

  -- fth_array_each over `old` with a function that works on the array `a`
  unfoldable pub each_into :
      (A → FArray A → Method A (Unit {0})) → FArray A → ℕ → ℕ → FArray A → Method A (Unit {0})
  each_into f old i zero a = (ok tt, a)
  each_into f old i (suc n) a = elim (element_of old i) [
    | none ↦ (fault, a)
    | some x ↦
        let r = f x a in
        elim r.0 [
          | ok _ ↦ each_into f old (suc i) n r.1
          | throw e ↦ (throw e, r.1)
          | fault ↦ (fault, r.1)
        ]
  ]

  unfoldable pub ary_compact_each : (A → Bool) → (ℕ → A) → A → FArray A → Method A (Unit {0})
  ary_compact_each is_nil fresh value a =
      if is_nil value then (ok tt, a) else array_push fresh value a

  unfoldable pub ary_uniq_each : (A → A → Bool) → (ℕ → A) → A → FArray A → Method A (Unit {0})
  ary_uniq_each equal fresh value a = elim (array_member_p equal value a) [
    | ok true ↦ (ok tt, a)
    | ok false ↦ array_push fresh value a
    | throw e ↦ (throw e, a)
    | fault ↦ (fault, a)
  ]

  -- `old = copy (array); length = 0; each (old, f, array)`
  unfoldable pub rebuild :
      A → (A → A) → (A → FArray A → Method A (Unit {0})) → FArray A → Method A (Unit {0})
  rebuild zero_bits copy f a = elim (ary_copy zero_bits copy a) [
    | ok old ↦ each_into f old 0 old.length (record a { length = 0; changed_p = true })
    | throw e ↦ (throw e, a)
    | fault ↦ (fault, a)
  ]

  unfoldable pub array_compact : A → (A → A) → (A → Bool) → (ℕ → A) → FArray A → Method A (Unit {0})
  array_compact zero_bits copy is_nil fresh a =
      rebuild zero_bits copy (ary_compact_each is_nil fresh) a

  unfoldable pub array_uniq :
      A → (A → A) → (A → A → Bool) → (ℕ → A) → FArray A → Method A (Unit {0})
  array_uniq zero_bits copy equal fresh a = rebuild zero_bits copy (ary_uniq_each equal fresh) a

  -- `for (; i < length; i++) if (test (data[i])) delete (i--)`, with `n` elements left to look at
  unfoldable pub reject_from : A → (ℕ → A) → (A → Bool) → ℕ → ℕ → FArray A → Method A (Unit {0})
  reject_from false_object fresh test i zero a = (ok tt, a)
  reject_from false_object fresh test i (suc n) a =
      let stay = reject_from false_object fresh test (suc i) n a in
      let r = array_delete false_object fresh (pos i) a in
      let gone = reject_from false_object fresh test i n r.1 in
      elim (element_of a i) [
        | none ↦ (fault, a)
        | some x ↦
            if test x
            then elim r.0 [ ok _ ↦ gone | throw e ↦ (throw e, r.1) | fault ↦ (fault, r.1) ]
            else stay
      ]

  -- `test x` is whether the procedure, applied to `x` and its further arguments, returns neither `#f`
  -- nor nil nor 0
  unfoldable pub array_reject : A → (ℕ → A) → (A → Bool) → FArray A → Method A (Unit {0})
  array_reject false_object fresh test a =
      if ltb a.length 2 then (ok tt, a) else reject_from false_object fresh test 0 a.length a
