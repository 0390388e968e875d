-- ===== src/Strings/Ends/Shift.antt =====
-- fth_string_shift removes the first character and returns it. Where the characters begin past the
-- middle of the buffer they move to its third, and the NUL byte stays where it was.
use fth.Base.{
  ℕ, suc, ◌+◌, ◌-◌, ◌/◌, ◌≤◌, ◌<◌, ◌≡◌, ◌≢◌, refl, sym, ap, ◌∙◌, inl, inr, true, false, ltb, ltb→lt,
  if◌then◌else◌, List, ◌∷◌, arith, ◌==◌, Bool-cases, ok, some, length,
}
use mathlib.Core.Path.{subst}
use fth.Memory.{moved, realloc}
use fth.Memory.Slice.{slice, slice_uncons}
use fth.Memory.Writes.{load-in, memmove-in, slice-moved_inside, moved_outside, slice-realloc}
use fth.Array.{new_seq_length}
use fth.Strings.{FString, view}
use fth.Strings.Valid.{IsValid, IsBounded, IsText, IsText-cell, Yields}
use fth.Strings.Ends.{string_recenter, string_drop_first, string_shift}

-- the string that `string_recenter` leaves
recentred : FString → FString
recentred s =
    if ltb (s.buf_length / 2) (s.top + 1)
    then record s {
      top = s.buf_length / 3;
      buf = record s.buf {
        cell = moved s.buf.cell s.buf.cell (s.buf_length / 3) s.data_offset s.length;
      };
    }
    else s

-- Between the move and the setting of `data`, the characters lie behind `top`.
record Centred (s c : FString) : Type 0 where
  sized : c.buf.size ≡ c.buf_length
  fits : c.top + c.length + 1 ≤ c.buf_length
  wide : 128 ≤ c.buf_length
  same_length : c.length ≡ s.length
  same_cells : slice c.buf.cell c.top c.length ≡ view s

recentred-Centred : (s : FString) → IsBounded s → Centred s (recentred s)
unfolding recentred
recentred-Centred s b = elim (Bool-cases (ltb (s.buf_length / 2) (s.top + 1))) [
  | inl late ↦ rw late (record {
    sized = b.sized;
    fits = omega (arith, b.fits, ltb→lt _ _ late);
    wide = b.wide;
    same_length = refl;
    same_cells = slice-moved_inside s.buf.cell s.buf.cell (s.buf_length / 3) s.data_offset s.length;
  })
  | inr early ↦ rw early (record {
    sized = b.sized;
    fits = b.fits;
    wide = b.wide;
    same_length = refl;
    same_cells = ap (λ i. slice s.buf.cell i s.length) (sym b.aimed);
  })
]

recenter_run : (s : FString) → IsBounded s → string_recenter s ≡ some (recentred s)
unfolding string_recenter recentred
recenter_run s b = elim (Bool-cases (ltb (s.buf_length / 2) (s.top + 1))) [
  | inl late ↦
      let move =
        memmove-in s.buf (s.buf_length / 3) s.buf s.data_offset s.length
          (omega (arith, b.sized, b.fits, ltb→lt _ _ late))
          (omega (arith, b.sized, b.aimed, b.fits)) in
      rw (late, move, string_recenter) refl
  | inr early ↦ rw (early, string_recenter) refl
]

shift_run :
    (fresh : ℕ → ℕ) (s : FString) (n : ℕ)
    → IsBounded s
    → s.length ≡ suc n
    → string_shift fresh s
      ≡ (ok (some (s.buf.cell s.data_offset)), string_drop_first fresh (recentred s))
unfolding string_shift
shift_run fresh s n b e =
    let first = load-in s.buf s.data_offset (omega (arith, b.sized, b.aimed, b.fits)) in
    let second = recenter_run s b in
    let some_left : (s.length == 0) ≡ false = ground (arith, e) in
    rw (some_left, first, second, string_shift) refl

-- What is left is inside the buffer and is what stood behind the first character; the byte behind
-- it is the one that the move left there.
record Dropped (c d : FString) : Type 0 where
  bounded : IsBounded d
  holds : view d ≡ slice c.buf.cell (c.top + 1) (c.length - 1)
  behind : d.buf.cell (d.data_offset + d.length) ≡ c.buf.cell (c.top + c.length)

drop_first-Dropped :
    (fresh : ℕ → ℕ) (s c : FString) (n : ℕ)
    → Centred s c
    → c.length ≡ suc n
    → Dropped c (string_drop_first fresh c)
unfolding string_drop_first realloc
drop_first-Dropped fresh s c n k e =
    elim (Bool-cases (ltb (new_seq_length (c.top + c.length)) c.buf_length)) [
      | inl long ↦
          rw (long, string_drop_first)
            (record {
              bounded = record {
                sized = refl;
                aimed = refl;
                fits = omega (arith, e);
                clear = omega arith;
                wide = omega arith;
              };
              holds =
                  slice-realloc fresh c.buf (new_seq_length (c.top + c.length)) (c.top + 1)
                    (c.length - 1) (omega (arith, k.sized, k.fits, e));
              behind =
                  kept (c.top + 1 + (c.length - 1)) (omega (arith, k.sized, k.fits, e))
                  ∙ ap c.buf.cell {y = c.top + c.length} (omega (arith, e));
            })
      | inr short ↦
          rw (short, string_drop_first)
            (record {
              bounded = record {
                sized = k.sized;
                aimed = refl;
                fits = omega (arith, k.fits, e);
                clear = omega arith;
                wide = k.wide;
              };
              holds = refl;
              behind =
                  ap c.buf.cell {x = c.top + 1 + (c.length - 1)} {y = c.top + c.length}
                    (omega (arith, e));
            })
    ]
  where
    kept :
        (i : ℕ)
        → i < c.buf.size
        → (if ltb i c.buf.size then c.buf.cell i else fresh i) ≡ c.buf.cell i
    kept i lt = ground arith

-- From a string within its buffer that holds `c` and then `cs`, `string_shift` returns `c` and leaves
-- a string within its buffer that holds `cs`.
pub string_shift-drops_first :
    (fresh : ℕ → ℕ) (s : FString) (c : ℕ) (cs : List ℕ)
    → IsBounded s
    → view s ≡ c ∷ cs
    → ((string_shift fresh s).0 ≡ ok (some c))
      × IsBounded (string_shift fresh s).1
      × (view (string_shift fresh s).1 ≡ cs)
string_shift-drops_first fresh s c cs b e =
    let (first, rest, len) = slice_uncons s.buf.cell s.data_offset s.length c cs e in
    let k = recentred-Centred s b in
    let (same, tail, size) =
      slice_uncons (recentred s).buf.cell (recentred s).top (recentred s).length c cs
        (k.same_cells ∙ e) in
    let d = drop_first-Dropped fresh s (recentred s) (length cs) k (k.same_length ∙ len) in
    rw (shift_run fresh s (length cs) b len)
      (ap (λ x. ok (some x)) first, d.bounded, d.holds ∙ tail)

-- Where the characters of a valid string do not move, it stays valid.
pub string_shift-Yields :
    (fresh : ℕ → ℕ) (s : FString) (c : ℕ) (cs : List ℕ)
    → IsValid s
    → view s ≡ c ∷ cs
    → s.top + 1 ≤ s.buf_length / 2
    → Yields (string_shift fresh s) (some c) cs
unfolding recentred
string_shift-Yields fresh s c cs v e early =
    let b = v.bounded in
    let (returns, bounded, holds) = string_shift-drops_first fresh s c cs b e in
    let (first, rest, len) = slice_uncons s.buf.cell s.data_offset s.length c cs e in
    let d =
      drop_first-Dropped fresh s (recentred s) (length cs) (recentred-Centred s b)
        ((recentred-Centred s b).same_length ∙ len) in
    let stays : recentred s ≡ s = ground arith in
    record {
      returns = returns;
      valid = record {
        bounded = bounded;
        ended = rw (shift_run fresh s (length cs) b len) (
            d.behind
            ∙ ap (λ (m : FString). m.buf.cell (m.top + m.length)) stays
            ∙ ap (λ i. s.buf.cell (i + s.length)) (sym b.aimed)
            ∙ v.ended);
      };
      holds = holds;
    }

-- Where the characters of a valid string move by no more than their number, the byte behind what is
-- left is one of the old characters and not the NUL byte: the string is not valid any more.
pub string_shift-unended :
    (fresh : ℕ → ℕ) (s : FString) (c : ℕ) (cs : List ℕ)
    → IsValid s
    → IsText (view s)
    → view s ≡ c ∷ cs
    → s.buf_length / 2 < s.top + 1
    → s.top ≤ s.buf_length / 3 + s.length
    → (string_shift fresh s).1.buf.cell
        ((string_shift fresh s).1.data_offset + (string_shift fresh s).1.length)
      ≢ 0
unfolding recentred
string_shift-unended fresh s c cs v t e late near =
    let b = v.bounded in
    let (first, rest, len) = slice_uncons s.buf.cell s.data_offset s.length c cs e in
    let d =
      drop_first-Dropped fresh s (recentred s) (length cs) (recentred-Centred s b)
        ((recentred-Centred s b).same_length ∙ len) in
    let third = s.buf_length / 3 in
    let moves : ltb (s.buf_length / 2) (s.top + 1) ≡ true = ground arith in
    let behind : (recentred s).buf.cell ((recentred s).top + (recentred s).length)
        ≡ s.buf.cell (s.data_offset + (third + s.length - s.top)) =
      rw moves (
        moved_outside s.buf.cell s.buf.cell third s.data_offset s.length (third + s.length)
          (inr (omega arith))
        ∙ ap s.buf.cell {y = s.data_offset + (third + s.length - s.top)}
            (omega (arith, near, b.aimed))) in
    rw (shift_run fresh s (length cs) b len) (
      subst (λ x. x ≢ 0) (sym (d.behind ∙ behind))
        (IsText-cell s.buf.cell s.data_offset s.length (third + s.length - s.top) t
          (omega (arith, near, late, b.wide, len))))
