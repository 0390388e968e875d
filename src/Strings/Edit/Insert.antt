-- ===== src/Strings/Edit/Insert.antt =====
-- fth_string_insert behind the first character.
use fth.Base.{
  ℕ, zero, suc, ◌+◌, ◌-◌, ◌≤◌, ◌≡◌, refl, sym, ap, ◌∙◌, ◌⊎◌, inl, inr, true, false, List, ◌∷◌, ◌++◌,
  arith, ◌==◌, ==_iff, Bool-cases, ℤ, pos, negsuc, ok, throw, out_of_range, some, length,
}
use mathlib.Core.Path.{subst, ap₂}
use fth.Memory.{moved}
use fth.Memory.Slice.{slice, slice_split}
use fth.Memory.Writes.{memmove-in, store-in, slice-moved_outside, slice-update_outside, update_eq}
use fth.Memory.Moves.{slice_opened}
use fth.Array.Access.{in_range, from_end}
use fth.Array.Access.Index.{position, in_range-from_end}
use fth.Strings.{FString, view, string_reserve}
use fth.Strings.Valid.{IsValid, Yields, Refuses, string_reserve-Resized}
use fth.Strings.Ends.{Added, another, itself, added_length, added_buf, added_data}
use fth.Strings.Ends.Push.{IsSound, added_view, added-bytes, added-Resized, empty_added}
use fth.Strings.Edit.{string_move_in, string_insert_inside, string_insert_from, string_insert}

-- the string once its tail has moved up
opened : FString → ℕ → ℕ → FString
opened s i m = record s {
  buf = record s.buf {
    cell = moved s.buf.cell s.buf.cell (s.data_offset + i + m) (s.data_offset + i) (s.length - i);
  };
}

-- What is inserted is read once the tail has moved; the string's own characters are still there.
opened-bytes :
    (ins : Added) (s : FString) (i : ℕ)
    → IsSound ins
    → IsValid s
    → (added_data ins (opened s i (added_length ins s)) + added_length ins s
        ≤ (added_buf ins (opened s i (added_length ins s))).size)
      × (slice
            (added_buf ins (opened s i (added_length ins s))).cell
            (added_data ins (opened s i (added_length ins s)))
            (added_length ins s)
          ≡ added_view ins s)
unfolding opened
opened-bytes (another a) s i w v = added-bytes (another a) s w v
opened-bytes itself s i w v =
    let b = v.bounded in
    (
      omega (arith, b.sized, b.aimed, b.fits),
      slice-moved_outside s.buf.cell s.buf.cell (s.data_offset + i + s.length) (s.data_offset + i)
          (s.length - i) s.data_offset s.length (inl (omega arith)),
    )

move_in-Yields :
    (ins : Added) (s : FString) (ys zs : List ℕ)
    → IsSound ins
    → IsValid s
    → s.top + (s.length + added_length ins s + 1) ≤ s.buf_length
    → view s ≡ ys ++ zs
    → Yields
        (string_move_in ins (length ys) (added_length ins s) s)
        tt
        (ys ++ (added_view ins s ++ zs))
unfolding string_move_in opened
move_in-Yields ins s ys zs w v room e =
    let b = v.bounded in
    let i = length ys in
    let m = added_length ins s in
    let (front, back, size) = slice_split s.buf.cell s.data_offset s.length ys zs e in
    let o = opened s i m in
    let (bound, bytes) = opened-bytes ins s i w v in
    let h = moved o.buf.cell (added_buf ins o).cell (s.data_offset + i) (added_data ins o) m in
    let first =
      memmove-in s.buf (s.data_offset + i + m) s.buf (s.data_offset + i) (s.length - i)
        (omega (arith, size, b.sized, b.aimed, room))
        (omega (arith, size, b.sized, b.aimed, room)) in
    let second =
      memmove-in o.buf (s.data_offset + i) (added_buf ins o) (added_data ins o) m
        (omega (arith, size, b.sized, b.aimed, room)) bound in
    let third =
      store-in (record o.buf { cell = h }) (s.data_offset + (s.length + m)) 0
        (omega (arith, b.sized, b.aimed, room)) in
    rw (first, second, third, string_move_in)
      (record {
        returns = refl;
        valid = record {
          bounded = record {
            sized = b.sized;
            aimed = b.aimed;
            fits = omega (arith, room);
            clear = b.clear;
            wide = b.wide;
          };
          ended =
              update_eq h (s.data_offset + (s.length + m)) 0 (s.data_offset + (s.length + m)) refl;
        };
        holds =
            slice-update_outside h (s.data_offset + (s.length + m)) 0 s.data_offset (s.length + m)
              (inr (omega arith))
            ∙ ap (slice h s.data_offset) {y = i + m + (s.length - i)} (omega (arith, size))
            ∙ slice_opened s.buf.cell s.data_offset i (added_buf ins o).cell (added_data ins o) m
                (s.length - i)
            ∙ ap₂ ◌++◌ front (ap₂ ◌++◌ bytes back);
      })

inside_nothing :
    (fresh : ℕ → ℕ) (i : ℕ) (ins : Added) (s : FString)
    → (added_length ins s == 0) ≡ true
    → string_insert_inside fresh i ins s ≡ (ok tt, s)
unfolding string_insert_inside
inside_nothing fresh i ins s t = rw (t, string_insert_inside)

inside_grown :
    (fresh : ℕ → ℕ) (i : ℕ) (ins : Added) (s b : FString)
    → (added_length ins s == 0) ≡ false
    → string_reserve fresh (s.top + (s.length + added_length ins s + 1)) s ≡ ok b
    → string_insert_inside fresh i ins s ≡ string_move_in ins i (added_length ins s) b
unfolding string_insert_inside
inside_grown fresh i ins s b f run = rw (f, run, string_insert_inside)

inside_refuses :
    (fresh : ℕ → ℕ) (i : ℕ) (ins : Added) (s : FString)
    → (added_length ins s == 0) ≡ false
    → string_reserve fresh (s.top + (s.length + added_length ins s + 1)) s ≡ throw out_of_range
    → string_insert_inside fresh i ins s ≡ (throw out_of_range, s)
unfolding string_insert_inside
inside_refuses fresh i ins s f run = rw (f, run, string_insert_inside)

insert_inside-Yields :
    (fresh : ℕ → ℕ) (ins : Added) (s : FString) (ys zs : List ℕ)
    → IsSound ins
    → IsValid s
    → view s ≡ ys ++ zs
    → Yields (string_insert_inside fresh (length ys) ins s) tt (ys ++ (added_view ins s ++ zs))
      ⊎ Refuses
          (string_insert_inside fresh (length ys) ins s)
          s
          (s.top + (s.length + added_length ins s + 1))
insert_inside-Yields fresh ins s ys zs w v e = elim (Bool-cases (added_length ins s == 0)) [
  | inl t ↦ inl (
      subst (λ r. Yields r tt (ys ++ (added_view ins s ++ zs)))
        (sym (inside_nothing fresh (length ys) ins s t))
        (record {
          returns = refl;
          valid = v;
          holds =
              e
              ∙ ap (λ l. ys ++ (l ++ zs))
                  (sym (empty_added ins s ((==_iff (added_length ins s) 0).0 t)));
        }))
  | inr f ↦
      elim (string_reserve-Resized fresh (s.top + (s.length + added_length ins s + 1)) s v
        (omega arith)) [
          | inr (run, short, long) ↦ inr (inside_refuses fresh (length ys) ins s f run, short, long)
          | inl (b, run, r, room) ↦
              let (len, chars) = added-Resized ins s b r in
              let y =
                move_in-Yields ins b ys zs w r.valid
                  (omega (arith, room, len, r.same_top, r.same_length)) (r.same_view ∙ e) in
              inl (
                subst (λ m. Yields m tt (ys ++ (added_view ins s ++ zs)))
                  (sym (inside_grown fresh (length ys) ins s b f run))
                  (subst
                    (λ n.
                      Yields (string_move_in ins (length ys) n b) tt
                        (ys ++ (added_view ins s ++ zs)))
                    len
                    (subst
                      (λ l.
                        Yields (string_move_in ins (length ys) (added_length ins b) b) tt
                          (ys ++ (l ++ zs)))
                      chars y)))
        ]
]

insert_from_inside :
    (fresh : ℕ → ℕ) (ins : Added) (s : FString) (i : ℕ) (j : ℤ)
    → in_range j s.length ≡ some (suc i)
    → string_insert_from fresh j ins s ≡ string_insert_inside fresh (suc i) ins s
unfolding string_insert_from in_range
insert_from_inside fresh ins s i (pos zero) e = absurd (ground arith)
insert_from_inside fresh ins s i (pos (suc j)) e = rw (e, string_insert_from)
insert_from_inside fresh ins s i (negsuc j) e = cc

-- Where the index means a position of a valid string behind the first, with `y ∷ ys` before it and
-- `zs` from it on, `string_insert` puts the characters of another valid string, or those of the
-- string itself, between them and leaves the string valid; or else it raises OUT-OF-RANGE because
-- the grown buffer would be longer than the limit, and leaves the string as it was.
pub string_insert-Yields :
    (fresh : ℕ → ℕ) (idx : ℤ) (ins : Added) (s : FString) (y : ℕ) (ys zs : List ℕ)
    → IsSound ins
    → IsValid s
    → view s ≡ (y ∷ ys) ++ zs
    → position idx s.length ≡ some (suc (length ys))
    → Yields (string_insert fresh idx ins s) tt ((y ∷ ys) ++ (added_view ins s ++ zs))
      ⊎ Refuses (string_insert fresh idx ins s) s (s.top + (s.length + added_length ins s + 1))
unfolding string_insert
string_insert-Yields fresh idx ins s y ys zs w v e p =
    rw
      (insert_from_inside fresh ins s (length ys) (from_end idx s.length)
        (in_range-from_end idx s.length ∙ p))
      (insert_inside-Yields fresh ins s (y ∷ ys) zs w v e)
