-- ===== src/Cons/Slice.antt =====
-- The words list-slice and list-slice! of src/array.c.
pub mod Kept
pub mod Moved
pub mod Pushed
pub mod Removed
use fth.Base.{
  ℕ, zero, suc, ◌+◌, ◌-◌, ◌≤◌, ◌<◌, ◌≡◌, refl, sym, ap, ◌∙◌, ◌⊎◌, inl, inr, Bool, true, false, not,
  ◌&&◌, ◌||◌, ltb, leb, if◌then◌else◌, Bool-cases, List, [], ◌∷◌, ◌++◌, take, drop, ℤ, pos, negsuc,
  Option, none, some, Outcome, ok, throw, fault, out_of_range, length, arith,
}
use mathlib.Core.List.{append_assoc, append-nil}
use mathlib.Core.Path.{ap₂}
use fth.Memory.{Block, update, load, store}
use fth.Memory.Slice.{slice, slice_snoc}
use fth.Memory.Writes.{load-in, store-in, update_eq, slice-update_outside}
use fth.Array.{FArray, view, make_array, make_list_instance}
use fth.Array.Access.{in_range, from_end}
use fth.Array.Ends.{array_push}
use fth.Cons.{Tail, nil, cons_of, atom}

-- `i >= idx + cnt` for an index `i`, which is not negative: the difference on ℕ stops at 0
abbrev pub slice_end : ℕ → ℤ → ℕ
slice_end idx (pos c) = idx + c
slice_end idx (negsuc k) = idx - (k + 1)

-- `i < idx || i >= end`
abbrev pub outside_p : ℕ → ℕ → ℕ → Bool
outside_p idx end i = ltb i idx || leb end i

module _ {ℓ} {A : Type ℓ} where
  -- the loop of list-slice over the `n` elements from `i` on
  unfoldable pub push_outside :
      (ℕ → A) → (ℕ → Bool) → ℕ → ℕ → FArray A → FArray A → Outcome (FArray A)
  unfolding array_push
  push_outside fresh keep i zero a ls = ok ls
  push_outside fresh keep i (suc n) a ls =
      let rest = push_outside fresh keep (i + 1) n a in
      if keep i
      then elim (load a.buf (a.data_offset + i)) [
        | none ↦ fault
        | some x ↦
            let r = array_push fresh x ls in
            elim r.0 [ ok _ ↦ rest r.1 | throw e ↦ throw e | fault ↦ fault ]
      ]
      else rest ls

  -- the loop of list-slice!, which moves elements to the front; the result is `j`
  unfoldable pub move_outside : (ℕ → Bool) → ℕ → ℕ → ℕ → FArray A → Outcome (ℕ × FArray A)
  unfolding load store
  move_outside keep i zero j a = ok (j, a)
  move_outside keep i (suc n) j a =
      let rest = move_outside keep (i + 1) n in
      if keep i
      then elim (load a.buf (a.data_offset + i)) [
        | none ↦ fault
        | some el ↦ elim (store a.buf (a.data_offset + j) el) [
          | none ↦ fault
          | some b ↦ rest (j + 1) (record a { buf = b })
        ]
      ]
      else rest j a

  -- `none` is nil
  unfoldable pub list_slice : A → (ℕ → A) → ℤ → ℤ → Tail A → Outcome (Option (FArray A))
  unfolding push_outside
  list_slice zero_bits fresh idx cnt nil = ok none
  list_slice zero_bits fresh idx cnt (atom x) = ok none
  list_slice zero_bits fresh idx cnt (cons_of a) =
      elim (in_range (from_end idx a.length) a.length) [
        | none ↦ throw out_of_range
        | some i ↦ elim (make_array zero_bits (pos 0)) [
          | throw e ↦ throw e
          | fault ↦ fault
          | ok e ↦
              elim (push_outside fresh (outside_p i (slice_end i cnt)) 0 a.length a
                (make_list_instance e)) [ ok ls ↦ ok (some ls) | throw x ↦ throw x | fault ↦ fault ]
        ]
      ]

  unfoldable pub list_slice_bang : ℤ → ℤ → Tail A → Outcome (Unit {0}) × Tail A
  unfolding move_outside
  list_slice_bang idx cnt nil = (ok tt, nil)
  list_slice_bang idx cnt (atom x) = (ok tt, atom x)
  list_slice_bang idx cnt (cons_of a) = elim (in_range (from_end idx a.length) a.length) [
    | none ↦ (throw out_of_range, cons_of a)
    | some i ↦ elim (move_outside (outside_p i (slice_end i cnt)) 0 a.length 0 a) [
      | throw e ↦ (throw e, cons_of a)
      | fault ↦ (fault, cons_of a)
      | ok (j, b) ↦ (ok tt, cons_of (record b { length = j }))
    ]
  ]
