-- ===== src/Array/Edit/Delete.antt =====
-- fth_array_delete takes out the one element that the index means.
use fth.Base.{
  ℕ, suc, if◌then◌else◌, ◌+◌, ◌-◌, ◌≡◌, ap, ◌∙◌, inl, inr, true, false, List, [], ◌∷◌, ◌++◌, arith,
  ◌==◌, Bool-cases, ℤ, ok, some, none, throw, out_of_range, wrong_type, length,
}
use mathlib.Core.Path.{ap₂}
use mathlib.Core.List.{append-nil}
use fth.Memory.{moved}
use fth.Memory.Slice.{slice, slice_split, slice_uncons}
use fth.Memory.Writes.{load-in, memmove-in}
use fth.Memory.Moves.{slice_closed}
use fth.Array.{FArray, view, shrink}
use fth.Array.Valid.{IsValid, Yields, shrink-Shrunk}
use fth.Array.Ends.Pop.{array_pop-Yields}
use fth.Array.Ends.Shift.{array_shift-Yields}
use fth.Array.Access.Index.{position, in_range-from_end}
use fth.Array.Edit.{delete_inside, delete_at, array_delete}

later_test : (i : ℕ) → (suc i == 0) ≡ false
later_test i = ground arith

last_test : (i n : ℕ) → n ≡ i + 1 → (i == n - 1) ≡ true
last_test i n e = ground arith

inner_test : (i n k : ℕ) → n ≡ i + suc (suc k) → (i == n - 1) ≡ false
inner_test i n k e = ground arith

filled_test : (n i k : ℕ) → n ≡ i + suc k → (n == 0) ≡ false
filled_test n i k e = ground arith

module _ {ℓ} {A : Type ℓ} where
  -- The cells of `a` from `ys` to `zs`, with `x` between.
  inside_run :
      (fresh : ℕ → A) (a : FArray A) (ys zs : List A) (x : A)
      → IsValid a
      → view a ≡ ys ++ x ∷ zs
      → Yields (delete_inside fresh (length ys) a) x (ys ++ zs)
  unfolding delete_inside
  inside_run fresh a ys zs x v e =
      let i = length ys in
      let (_, here, size) = slice_split a.buf.cell a.data_offset a.length ys (x ∷ zs) e in
      let (first, _, _) = slice_uncons a.buf.cell (a.data_offset + i) (a.length - i) x zs here in
      let c = shrink fresh (record a { length = a.length - 1 }) in
      let h =
        shrink-Shrunk fresh (record a { length = a.length - 1 })
          (record { sized = v.sized; aimed = v.aimed; fits = omega arith }) (omega (arith, size)) in
      let kept : slice c.buf.cell c.data_offset a.length ≡ ys ++ x ∷ zs =
        h.kept a.length (omega arith) ∙ e in
      let (front, there, _) = slice_split c.buf.cell c.data_offset a.length ys (x ∷ zs) kept in
      let (_, back, _) = slice_uncons c.buf.cell (c.data_offset + i) (a.length - i) x zs there in
      let l = h.same_length in
      let load = load-in a.buf (a.data_offset + i) (omega (arith, size)) in
      let move =
        memmove-in c.buf (c.data_offset + i) c.buf (c.data_offset + i + 1) (c.length - i)
          (omega (arith, size, h.valid.sized, h.valid.aimed, h.slack, l))
          (omega (arith, size, h.valid.sized, h.valid.aimed, h.slack, l)) in
      rw (load, move, delete_inside)
        (record {
          returns = ap ok first;
          valid = record { sized = h.valid.sized; aimed = h.valid.aimed; fits = h.valid.fits };
          holds =
              ap
                (slice
                  (moved c.buf.cell c.buf.cell (c.data_offset + i) (c.data_offset + i + 1)
                    (c.length - i))
                  c.data_offset)
                {y = i + (c.length - i)} (omega (arith, size, l))
              ∙ slice_closed c.buf.cell c.data_offset i (c.length - i)
              ∙ ap₂ ◌++◌ front (
                  ap (slice c.buf.cell (c.data_offset + i + 1)) {y = a.length - i - 1}
                    (omega (arith, l))
                  ∙ back);
        })

  -- An element with index `length ys` goes, and the others stay in order.
  delete_at-Yields :
      (false_object : A) (fresh : ℕ → A) (a : FArray A) (ys zs : List A) (x : A)
      → IsValid a
      → view a ≡ ys ++ x ∷ zs
      → Yields (delete_at false_object fresh (length ys) a) x (ys ++ zs)
  unfolding delete_at
  delete_at-Yields false_object fresh a [] zs x v e =
      array_shift-Yields false_object fresh a x zs v e
  delete_at-Yields false_object fresh a (y ∷ ys) [] x v e =
      let (_, _, size) = slice_split a.buf.cell a.data_offset a.length (y ∷ ys) (x ∷ []) e in
      rw (later_test (length ys), last_test (suc (length ys)) a.length size, append-nil (y ∷ ys))
        (array_pop-Yields false_object fresh a (y ∷ ys) x v e)
  delete_at-Yields false_object fresh a (y ∷ ys) (z ∷ zs) x v e =
      let (_, _, size) = slice_split a.buf.cell a.data_offset a.length (y ∷ ys) (x ∷ z ∷ zs) e in
      rw (later_test (length ys), inner_test (suc (length ys)) a.length (length zs) size)
        (inside_run fresh a (y ∷ ys) (z ∷ zs) x v e)

  -- Where the index means the position behind `ys` in a valid array, `array_delete` returns the element `x` there
  -- and leaves a valid array of the elements before and behind it, in order.
  pub array_delete-Yields :
      (false_object : A) (fresh : ℕ → A) (idx : ℤ) (a : FArray A) (ys zs : List A) (x : A)
      → IsValid a
      → view a ≡ ys ++ x ∷ zs
      → position idx a.length ≡ some (length ys)
      → Yields (array_delete false_object fresh idx a) x (ys ++ zs)
  unfolding array_delete
  array_delete-Yields false_object fresh idx a ys zs x v e p =
      let (_, _, size) = slice_split a.buf.cell a.data_offset a.length ys (x ∷ zs) e in
      rw
        (
          filled_test a.length (length ys) (length zs) size,
          in_range-from_end idx a.length,
          p,
          array_delete,
        )
        (delete_at-Yields false_object fresh a ys zs x v e)

  -- An index that means no position raises OUT-OF-RANGE, an empty array WRONG-TYPE-ARG, and the
  -- array stays as it was.
  pub array_delete-throws :
      (false_object : A) (fresh : ℕ → A) (idx : ℤ) (a : FArray A)
      → position idx a.length ≡ none
      → array_delete false_object fresh idx a
        ≡ ((if a.length == 0 then throw wrong_type else throw out_of_range), a)
  unfolding array_delete
  array_delete-throws false_object fresh idx a p = elim (Bool-cases (a.length == 0)) [
    | inl t ↦ rw (t, array_delete)
    | inr t ↦ rw (t, in_range-from_end idx a.length, p, array_delete)
  ]
