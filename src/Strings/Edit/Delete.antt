-- ===== src/Strings/Edit/Delete.antt =====
-- fth_string_delete takes out the one character that the index means.
use fth.Base.{
  ℕ, suc, if◌then◌else◌, ◌+◌, ◌-◌, ◌≡◌, refl, sym, ap, ◌∙◌, inl, inr, true, false, List, [], ◌∷◌,
  ◌++◌, arith, ◌==◌, Bool-cases, ℤ, ok, some, none, throw, out_of_range, length,
}
use mathlib.Core.Path.{ap₂}
use mathlib.Core.List.{append-nil}
use fth.Memory.{moved}
use fth.Memory.Slice.{slice, slice_split, slice_uncons}
use fth.Memory.Writes.{load-in, store-in, memmove-in, slice-update_outside, update_eq}
use fth.Memory.Moves.{slice_closed}
use fth.Array.{new_seq_length}
use fth.Array.Access.Index.{position, in_range-from_end}
use fth.Strings.{FString, view, string_shrink}
use fth.Strings.Valid.{IsValid, Yields, string_shrink-Shrunk}
use fth.Strings.Ends.{string_shift}
use fth.Strings.Ends.Pop.{string_pop-Yields}
use fth.Strings.Edit.{string_delete_inside, string_delete_at, string_delete}

later_test : (i : ℕ) → (suc i == 0) ≡ false
later_test i = ground arith

last_test : (i n : ℕ) → n ≡ i + 1 → (i == n - 1) ≡ true
last_test i n e = ground arith

inner_test : (i n k : ℕ) → n ≡ i + suc (suc k) → (i == n - 1) ≡ false
inner_test i n k e = ground arith

filled_test : (n i k : ℕ) → n ≡ i + suc k → (n == 0) ≡ false
filled_test n i k e = ground arith

-- A character of a valid string, with `ys` before it and `zs` behind, goes out, and the NUL byte
-- comes up to where the last character was.
inside_run :
    (fresh : ℕ → ℕ) (s : FString) (ys zs : List ℕ) (x : ℕ)
    → IsValid s
    → view s ≡ ys ++ x ∷ zs
    → Yields (string_delete_inside fresh (length ys) s) (some x) (ys ++ zs)
unfolding string_delete_inside
inside_run fresh s ys zs x v e =
    let b = v.bounded in
    let i = length ys in
    let (_, here, size) = slice_split s.buf.cell s.data_offset s.length ys (x ∷ zs) e in
    let (first, _, _) = slice_uncons s.buf.cell (s.data_offset + i) (s.length - i) x zs here in
    let l = new_seq_length (s.top + (s.length - 1) + 1) in
    let c = string_shrink fresh l (record s { length = s.length - 1 }) in
    let h =
      string_shrink-Shrunk fresh l (record s { length = s.length - 1 })
        (record {
          sized = b.sized;
          aimed = b.aimed;
          fits = omega (arith, b.fits);
          clear = b.clear;
          wide = b.wide;
        })
        (omega arith) (omega arith) in
    let kept : slice c.buf.cell c.data_offset s.length ≡ ys ++ x ∷ zs =
      h.kept s.length (omega (arith, size)) ∙ e in
    let (front, there, _) = slice_split c.buf.cell c.data_offset s.length ys (x ∷ zs) kept in
    let (_, back, _) = slice_uncons c.buf.cell (c.data_offset + i) (s.length - i) x zs there in
    let n = h.same_length in
    let k = h.bounded in
    let g =
      moved c.buf.cell c.buf.cell (c.data_offset + i) (c.data_offset + i + 1) (c.length - i) in
    let load = load-in s.buf (s.data_offset + i) (omega (arith, size, b.sized, b.aimed, b.fits)) in
    let move =
      memmove-in c.buf (c.data_offset + i) c.buf (c.data_offset + i + 1) (c.length - i)
        (omega (arith, size, k.sized, k.aimed, k.fits, n))
        (omega (arith, size, k.sized, k.aimed, k.fits, n)) in
    let store =
      store-in (record c.buf { cell = g }) (c.data_offset + c.length) 0
        (omega (arith, k.sized, k.aimed, k.fits)) in
    rw (load, move, store, string_delete_inside)
      (record {
        returns = ap (λ y. ok (some y)) first;
        valid = record {
          bounded = record {
            sized = k.sized;
            aimed = k.aimed;
            fits = k.fits;
            clear = k.clear;
            wide = k.wide;
          };
          ended = update_eq g (c.data_offset + c.length) 0 (c.data_offset + c.length) refl;
        };
        holds =
            slice-update_outside g (c.data_offset + c.length) 0 c.data_offset c.length
              (inr (omega arith))
            ∙ ap (slice g c.data_offset) {y = i + (c.length - i)} (omega (arith, size, n))
            ∙ slice_closed c.buf.cell c.data_offset i (c.length - i)
            ∙ ap₂ ◌++◌ front (
                ap (slice c.buf.cell (c.data_offset + i + 1)) {y = s.length - i - 1}
                  (omega (arith, n))
                ∙ back);
      })

-- A character that is not the first goes, and the others stay in order.
delete_at-Yields :
    (fresh : ℕ → ℕ) (s : FString) (y : ℕ) (ys zs : List ℕ) (x : ℕ)
    → IsValid s
    → view s ≡ (y ∷ ys) ++ x ∷ zs
    → Yields (string_delete_at fresh (suc (length ys)) s) (some x) ((y ∷ ys) ++ zs)
unfolding string_delete_at
delete_at-Yields fresh s y ys [] x v e =
    let (_, _, size) = slice_split s.buf.cell s.data_offset s.length (y ∷ ys) (x ∷ []) e in
    rw (later_test (length ys), last_test (suc (length ys)) s.length size, append-nil (y ∷ ys))
      (string_pop-Yields fresh s (y ∷ ys) x v e)
delete_at-Yields fresh s y ys (z ∷ zs) x v e =
    let (_, _, size) = slice_split s.buf.cell s.data_offset s.length (y ∷ ys) (x ∷ z ∷ zs) e in
    rw (later_test (length ys), inner_test (suc (length ys)) s.length (length zs) size)
      (inside_run fresh s (y ∷ ys) (z ∷ zs) x v e)

-- Where the index means the position behind `y ∷ ys` in a valid string, `string_delete` returns the
-- character `x` there and leaves a valid string of the characters before and behind it, in order.
pub string_delete-Yields :
    (fresh : ℕ → ℕ) (idx : ℤ) (s : FString) (y : ℕ) (ys zs : List ℕ) (x : ℕ)
    → IsValid s
    → view s ≡ (y ∷ ys) ++ x ∷ zs
    → position idx s.length ≡ some (suc (length ys))
    → Yields (string_delete fresh idx s) (some x) ((y ∷ ys) ++ zs)
unfolding string_delete
string_delete-Yields fresh idx s y ys zs x v e p =
    let (_, _, size) = slice_split s.buf.cell s.data_offset s.length (y ∷ ys) (x ∷ zs) e in
    rw
      (
        filled_test s.length (suc (length ys)) (length zs) size,
        in_range-from_end idx s.length,
        p,
        string_delete,
      )
      (delete_at-Yields fresh s y ys zs x v e)

shift_nothing :
    (fresh : ℕ → ℕ) (s : FString) → (s.length == 0) ≡ true → string_shift fresh s ≡ (ok none, s)
unfolding string_shift
shift_nothing fresh s t = rw (t, string_shift)

-- The first character is `string_shift`'s to take out.
pub string_delete-first :
    (fresh : ℕ → ℕ) (idx : ℤ) (s : FString)
    → position idx s.length ≡ some 0
    → string_delete fresh idx s ≡ string_shift fresh s
unfolding string_delete string_delete_at
string_delete-first fresh idx s p = elim (Bool-cases (s.length == 0)) [
  | inl t ↦ rw (t, string_delete) (sym (shift_nothing fresh s t))
  | inr t ↦ rw (t, in_range-from_end idx s.length, p, string_delete) refl
]

-- An index that means no position raises OUT-OF-RANGE, except that an empty string gives `#f`
-- whatever the index; the string stays as it was.
pub string_delete-throws :
    (fresh : ℕ → ℕ) (idx : ℤ) (s : FString)
    → position idx s.length ≡ none
    → string_delete fresh idx s ≡ ((if s.length == 0 then ok none else throw out_of_range), s)
unfolding string_delete
string_delete-throws fresh idx s p = elim (Bool-cases (s.length == 0)) [
  | inl t ↦ rw (t, string_delete)
  | inr t ↦ rw (t, in_range-from_end idx s.length, p, string_delete)
]
