-- ===== src/Array/Copy/Subarray.antt =====
-- fth_array_subarray moves as many cells as the whole array has, into a buffer made for the part.
use fth.Base.{
  ℕ, ◌/◌, ◌+◌, ◌-◌, ◌≤◌, ◌<◌, ◌≡◌, sym, ap, ◌∙◌, ◌⊎◌, inl, inr, arith, ℤ, pos, negsuc, ok, some,
  throw, fault, out_of_range, Outcome, take, drop,
}
use native.Mathlib.Decide.{dec_le}
use fth.Memory.{moved}
use fth.Memory.Slice.{slice, take-slice, drop-slice}
use fth.Memory.Writes.{memmove-in, memmove-out, slice-moved_inside}
use fth.Array.{FArray, view, max_seq_length, new_seq_length}
use fth.Array.Valid.{IsValid}
use fth.Array.Access.{make_array_len}
use fth.Array.Access.Index.{position, position-lt, in_range-from_end}
use fth.Array.Access.Make.{first_buf_length}
use fth.Array.Access.Fresh.{Fresh, make_array_len-Fresh}
use fth.Array.Copy.{end_of, clip_end, copy_part, array_subarray}

-- The move of `len` cells from position `s` on passes the end of one of the two buffers: that of
-- the array, or the one that was made for the `n` cells of the part.
abbrev pub Overruns {ℓ} : {A : Type ℓ} → FArray A → ℕ → ℕ → Type 0
Overruns a s n =
    (a.buf_length < a.top + s + a.length) ⊎ (first_buf_length n < new_seq_length n / 3 + a.length)

-- The move stays within both buffers.
abbrev pub Stays {ℓ} : {A : Type ℓ} → FArray A → ℕ → ℕ → Type 0
Stays a s n =
    (a.top + s + a.length ≤ a.buf_length) × (new_seq_length n / 3 + a.length ≤ first_buf_length n)

-- the buffer for `n` elements is within the limit
abbrev pub Allots : ℕ → Type 0
Allots n = first_buf_length n ≤ max_seq_length

-- The part from `s` of an array of `len` elements ends before `e`: an end that is not negative is the
-- place where it ends, a negative one means the element that is the last of the part, counted from the
-- back; where that place is before `s` or behind the array, the part ends with the array.
abbrev pub EndsAt : ℤ → ℕ → ℕ → ℕ → Type 0
EndsAt (pos k) s len e = ((s ≤ k) × (k ≤ len) × (e ≡ k)) ⊎ (((k < s) ⊎ (len < k)) × (e ≡ len))
EndsAt (negsuc k) s len e = ((s + k ≤ len) × (e + k ≡ len)) ⊎ ((len < s + k) × (e ≡ len))

clip_end-EndsAt :
    (end : ℤ) (s len : ℕ) → s < len → EndsAt end s len (clip_end s len (end_of end len))
unfolding clip_end end_of
clip_end-EndsAt (pos k) s len lt = ground arith
clip_end-EndsAt (negsuc k) s len lt = ground arith

module _ {ℓ} {A : Type ℓ} (z : A) where
  clip_end_bounds :
      (s len : ℕ) (e : ℤ) → s < len → (s ≤ clip_end s len e) × (clip_end s len e ≤ len)
  unfolding clip_end
  clip_end_bounds s len (negsuc k) lt = omega arith
  clip_end_bounds s len (pos e) lt = ground arith

  -- what the call gives for the part from `s` of length `n`
  abbrev pub Copied : Outcome (FArray A) → FArray A → ℕ → ℕ → Type ℓ
  Copied o a s n =
      (Allots n
        × Stays a s n
        × (r : FArray A) × (o ≡ ok r)
        × IsValid r
        × (view r ≡ take n (drop s (view a))))
      ⊎ (Allots n × Overruns a s n × (o ≡ fault))
      ⊎ ((o ≡ throw out_of_range) × (max_seq_length < first_buf_length n))

  part_view :
      (a : FArray A) (s n o : ℕ) (f : ℕ → A)
      → s + n ≤ a.length
      → slice (moved f a.buf.cell o (a.data_offset + s) a.length) o n ≡ take n (drop s (view a))
  part_view a s n o f le =
      sym
        (take-slice (moved f a.buf.cell o (a.data_offset + s) a.length) o n a.length (omega arith))
      ∙ ap (take n) (slice-moved_inside f a.buf.cell o (a.data_offset + s) a.length)
      ∙ take-slice a.buf.cell (a.data_offset + s) n a.length (omega arith)
      ∙ sym (take-slice a.buf.cell (a.data_offset + s) n (a.length - s) (omega arith))
      ∙ ap (take n) (sym (drop-slice a.buf.cell a.data_offset s a.length (omega arith)))

  moved_part :
      (a r : FArray A) (s e : ℕ)
      → IsValid a
      → s ≤ e
      → e ≤ a.length
      → make_array_len z (pos (e - s)) ≡ ok r
      → Fresh z (e - s) r
      → Copied (copy_part z s e a) a s (e - s)
  unfolding copy_part
  moved_part a r s e v le bound run h = elim (dec_le (a.top + s + a.length) a.buf_length) [
    | no out ↦ inr (
        inl (
          h.short,
          inl (omega arith),
          rw (
            run,
            memmove-out r.buf r.data_offset a.buf (a.data_offset + s) a.length (inr (omega arith)),
            copy_part,
          ),
        ))
    | yes inside ↦
        elim (dec_le (new_seq_length (e - s) / 3 + a.length) (first_buf_length (e - s))) [
          | no out ↦ inr (
              inl (
                h.short,
                inr (omega (arith, out)),
                rw (
                  run,
                  memmove-out r.buf r.data_offset a.buf (a.data_offset + s) a.length
                      (inl (omega (arith, h.sized, h.aimed, out))),
                  copy_part,
                ),
              ))
          | yes roomy ↦ inl (
            h.short,
            (inside, roomy),
            record r {
              buf = record r.buf {
                cell = moved r.buf.cell a.buf.cell r.data_offset (a.data_offset + s) a.length;
              };
            },
            rw (
              run,
              memmove-in r.buf r.data_offset a.buf (a.data_offset + s) a.length
                  (omega (arith, h.sized, h.aimed, roomy)) (omega arith),
              copy_part,
            ),
            record {
              sized = h.sized ∙ sym h.buf_length;
              aimed = h.aimed ∙ sym h.top;
              fits = omega (arith, h.top, h.len, h.buf_length);
            },
            ap
                  (slice (moved r.buf.cell a.buf.cell r.data_offset (a.data_offset + s) a.length)
                    r.data_offset)
                  h.len
                ∙ part_view a s (e - s) r.data_offset r.buf.cell (omega arith),
          )
        ]
  ]

  subarray_raises :
      (a : FArray A) (s e : ℕ)
      → make_array_len z (pos (e - s)) ≡ throw out_of_range
      → copy_part z s e a ≡ throw out_of_range
  unfolding copy_part
  subarray_raises a s e raised = rw (raised, copy_part)

  -- Of a valid array, where the start means a position `s`, the part ends before one `e`, as `EndsAt`
  -- tells. The outcome of `array_subarray` is decided by the sizes: it raises OUT-OF-RANGE where the
  -- buffer of the part would be longer than the limit; else it is undefined where the move of as many
  -- cells as the whole array has passes the end of a buffer; and where it does not, it gives a valid array
  -- of the elements from `s` up to but excluding `e`.
  pub array_subarray-cases :
      (start end : ℤ) (a : FArray A) (s : ℕ)
      → IsValid a
      → position start a.length ≡ some s
      → (e : ℕ) × EndsAt end s a.length e × Copied (array_subarray z start end a) a s (e - s)
  unfolding array_subarray
  array_subarray-cases start end a s v p =
      let e = clip_end s a.length (end_of end a.length) in
      let lt = position-lt start a.length s p in
      let (low, high) = clip_end_bounds s a.length (end_of end a.length) lt in
      let go = in_range-from_end start a.length ∙ p in
      (
        e,
        clip_end-EndsAt end s a.length lt,
        elim (make_array_len-Fresh z (e - s)) [
          | inl (r, run, h) ↦ rw (go, array_subarray) (moved_part a r s e v low high run h)
          | inr (raised, long) ↦
              rw (go, array_subarray) (inr (inr (subarray_raises a s e raised, long)))
        ],
      )
