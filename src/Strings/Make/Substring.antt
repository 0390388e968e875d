-- ===== src/Strings/Make/Substring.antt =====
-- fth_string_substring of src/string.c.
use fth.Base.{
  ℕ, zero, suc, ◌+◌, ◌-◌, ◌≤◌, ◌<◌, ◌≡◌, refl, sym, ap, ◌∙◌, ◌⊎◌, inl, inr, ltb, if◌then◌else◌,
  List, [], ◌∷◌, length, take, drop, arith, ℤ, pos, negsuc, none, some, ok, throw, out_of_range,
}
use mathlib.Core.Path.{subst}
use fth.Memory.{moved}
use fth.Memory.Slice.{slice, length-slice, take-slice, drop-slice}
use fth.Memory.Writes.{memmove-in, slice-moved_inside, moved_outside}
use fth.Array.{max_seq_length}
use fth.Array.Access.{from_end}
use fth.Array.Access.Index.{position, position-lt, in_range-from_end}
use fth.Strings.{FString, view}
use fth.Strings.Valid.{IsValid, IsText}
use fth.Strings.Libc.{string_data}
use fth.Strings.Libc.Text.{c_string-IsText}
use fth.Strings.Make.{at_most, fth_make_string_len, last_position, substring_from, string_substring}
use fth.Strings.Make.Fresh.{Creates}
use fth.Strings.Make.Prefix.{fth_make_string_len-Creates}

-- the string with the bytes from `start` on written over its characters
overwritten : FString → FString → ℕ → FString
overwritten r s start = record r {
  buf = record r.buf {
    cell = moved r.buf.cell s.buf.cell r.data_offset (s.data_offset + start) r.length;
  };
}

overwritten-IsValid : (r s : FString) (start : ℕ) → IsValid r → IsValid (overwritten r s start)
unfolding overwritten
overwritten-IsValid r s start v =
    let b = v.bounded in
    record {
      bounded = record {
        sized = b.sized;
        aimed = b.aimed;
        fits = b.fits;
        clear = b.clear;
        wide = b.wide;
      };
      ended =
          moved_outside r.buf.cell s.buf.cell r.data_offset (s.data_offset + start) r.length
            (r.data_offset + r.length) (inr (omega arith))
          ∙ v.ended;
    }

overwritten-view :
    (r s : FString) (start : ℕ)
    → view (overwritten r s start) ≡ slice s.buf.cell (s.data_offset + start) r.length
unfolding overwritten
overwritten-view r s start =
    slice-moved_inside r.buf.cell s.buf.cell r.data_offset (s.data_offset + start) r.length

from_run :
    (start end_at : ℕ) (s r : FString)
    → fth_make_string_len (some (string_data s)) (pos (end_at - start)) ≡ ok r
    → r.data_offset + r.length ≤ r.buf.size
    → s.data_offset + start + r.length ≤ s.buf.size
    → substring_from start end_at s ≡ ok (overwritten r s start)
unfolding substring_from overwritten
from_run start end_at s r run h k =
    let move = memmove-in r.buf r.data_offset s.buf (s.data_offset + start) r.length h k in
    rw (run, move, substring_from) refl

from_refuses :
    (start end_at : ℕ) (s : FString)
    → fth_make_string_len (some (string_data s)) (pos (end_at - start)) ≡ throw out_of_range
    → substring_from start end_at s ≡ throw out_of_range
unfolding substring_from
from_refuses start end_at s run = rw (run, substring_from) refl

at_most_less : (n m : ℕ) → n ≤ m → at_most (pos n) m ≡ n
unfolding at_most
at_most_less n m h = ground arith

length-take : (n : ℕ) (cs : List ℕ) → n ≤ length cs → length (take n cs) ≡ n
length-take zero cs h = refl
length-take (suc n) [] h = absurd (omega arith)
length-take (suc n) (c ∷ cs) h = ap suc (length-take n cs (omega arith))

-- A substring from `i` of `len` characters ends before `n`: an end counts from the back where it is
-- negative, and where that is before `i` or behind the last character, the substring ends with the string.
abbrev pub EndsAt : ℤ → ℕ → ℕ → ℕ → Type 0
EndsAt (pos k) i len n = ((i ≤ k) × (k ≤ len) × (n ≡ k)) ⊎ (((k < i) ⊎ (len < k)) × (n ≡ len))
EndsAt (negsuc k) i len n =
    ((i + (k + 1) ≤ len) × (n + (k + 1) ≡ len)) ⊎ ((len < i + (k + 1)) × (n ≡ len))

last_position-EndsAt :
    (end_at : ℤ) (i len : ℕ) → i < len → EndsAt end_at i len (last_position i end_at len)
unfolding last_position from_end
last_position-EndsAt (pos k) i len lt = ground arith
last_position-EndsAt (negsuc k) i len lt = ground arith

last_position_le :
    (start : ℕ) (end_at : ℤ) (len : ℕ)
    → start < len
    → (start ≤ last_position start end_at len) × (last_position start end_at len ≤ len)
unfolding last_position
last_position_le start end_at len lt = go (from_end end_at len)
  where
    go :
        (z : ℤ)
        → (start ≤ (elim z [
          | pos e ↦ if ltb e start then len else if ltb len e then len else e
          | negsuc k ↦ len
        ]))
          × ((elim z [
            | pos e ↦ if ltb e start then len else if ltb len e then len else e
            | negsuc k ↦ len
          ])
              ≤ len)
    go (pos e) = ground arith
    go (negsuc k) = ground arith

substring_from-Creates :
    (start end_at : ℕ) (s : FString)
    → IsValid s
    → IsText (view s)
    → start ≤ end_at
    → end_at ≤ s.length
    → ((r : FString) × (substring_from start end_at s ≡ ok r)
        × IsValid r
        × (view r ≡ take (end_at - start) (drop start (view s))))
      ⊎ ((substring_from start end_at s ≡ throw out_of_range) × (max_seq_length < end_at - start))
substring_from-Creates start end_at s v t h k =
    let b = v.bounded in
    let n = end_at - start in
    let len = length-slice s.buf.cell s.data_offset s.length in
    let cut : at_most (pos n) (length (view s)) ≡ n =
      at_most_less n (length (view s)) (omega (arith, len)) in
    let count = length-take n (view s) (omega (arith, len)) in
    elim (subst
      (λ m. Creates (fth_make_string_len (some (string_data s)) (pos n)) (take m (view s))) cut
      (fth_make_string_len-Creates (some (string_data s)) (pos n) (view s)
        (c_string-IsText s v t))) [
          | inr (run, long) ↦ inr (from_refuses start end_at s run, omega (arith, long, count))
          | inl (r, run, w, holds) ↦
              let c = w.bounded in
              let l : r.length ≡ n =
                sym (length-slice r.buf.cell r.data_offset r.length) ∙ ap length holds ∙ count in
              inl (
                overwritten r s start,
                from_run start end_at s r run (omega (arith, c.sized, c.aimed, c.fits))
                    (omega (arith, b.sized, b.aimed, b.fits, l)),
                overwritten-IsValid r s start w,
                overwritten-view r s start
                    ∙ ap (slice s.buf.cell (s.data_offset + start)) l
                    ∙ sym (
                        take-slice s.buf.cell (s.data_offset + start) n (s.length - start)
                          (omega arith))
                    ∙ ap (take n)
                        (sym (drop-slice s.buf.cell s.data_offset start s.length (omega arith))),
              )
        ]

substring_inside :
    (start end_at : ℤ) (i : ℕ) (s : FString)
    → position start s.length ≡ some i
    → string_substring start end_at s ≡ substring_from i (last_position i end_at s.length) s
unfolding string_substring
substring_inside start end_at i s p =
    rw (in_range-from_end start s.length, p, string_substring) refl

substring_to-Creates :
    (start end_at : ℤ) (i : ℕ) (s : FString)
    → IsValid s
    → IsText (view s)
    → position start s.length ≡ some i
    → i < s.length
    → Creates
        (string_substring start end_at s)
        (take (last_position i end_at s.length - i) (drop i (view s)))
substring_to-Creates start end_at i s v t p lt =
    let n = last_position i end_at s.length in
    let (above, below) = last_position_le i end_at s.length lt in
    let count = drop-slice s.buf.cell s.data_offset i s.length (omega arith) in
    let long_enough : n - i ≤ length (drop i (view s)) =
      omega (
        arith,
        below,
        ap length count,
        length-slice s.buf.cell (s.data_offset + i) (s.length - i),
      ) in
    rw (substring_inside start end_at i s p) (elim (substring_from-Creates i n s v t above below) [
      | inl made ↦ inl made
      | inr (run, long) ↦
          inr (run, omega (arith, long, length-take (n - i) (drop i (view s)) long_enough))
    ])

-- Of a valid string without NUL characters, where the start means a position `i`, the substring ends
-- before one `n`, as `EndsAt` tells: the end, counted from the back where it is negative, or the length
-- where that is before `i` or behind the last character. `string_substring` makes a valid string of the
-- characters from `i` up to but excluding `n`, none where `n` is `i`; or it raises OUT-OF-RANGE because
-- these are more than the limit.
pub string_substring-Creates :
    (start end_at : ℤ) (i : ℕ) (s : FString)
    → IsValid s
    → IsText (view s)
    → position start s.length ≡ some i
    → (n : ℕ) × EndsAt end_at i s.length n
      × Creates (string_substring start end_at s) (take (n - i) (drop i (view s)))
string_substring-Creates start end_at i s v t p =
    let lt = position-lt start s.length i p in
    (
      last_position i end_at s.length,
      last_position-EndsAt end_at i s.length lt,
      substring_to-Creates start end_at i s v t p lt,
    )

-- A start that means no position raises OUT-OF-RANGE.
pub string_substring-throws :
    (start end_at : ℤ) (s : FString)
    → position start s.length ≡ none
    → string_substring start end_at s ≡ throw out_of_range
unfolding string_substring
string_substring-throws start end_at s p =
    rw (in_range-from_end start s.length, p, string_substring) refl
