-- ===== src/Memory/Moves.antt =====
-- Taking a cell out of a run, and opening a run for others, by moves.
use fth.Base.{ℕ, ◌+◌, ◌≡◌, ap, ◌∙◌, inl, inr, ◌++◌, arith}
use mathlib.Core.Path.{ap₂}
use fth.Memory.{moved}
use fth.Memory.Slice.{slice, slice-append}
use fth.Memory.Writes.{slice-moved_inside, slice-moved_outside}

module _ {ℓ} {A : Type ℓ} (f : ℕ → A) (o i : ℕ) where
  -- The tail of `r` cells moves down over cell `i`.
  pub slice_closed :
      (r : ℕ)
      → slice (moved f f (o + i) (o + i + 1) r) o (i + r) ≡ slice f o i ++ slice f (o + i + 1) r
  slice_closed r =
      slice-append (moved f f (o + i) (o + i + 1) r) o i r
      ∙ ap₂ ◌++◌ (slice-moved_outside f f (o + i) (o + i + 1) r o i (inl (omega arith)))
          (slice-moved_inside f f (o + i) (o + i + 1) r)

  -- The tail of `r` cells moves up by `m` cells, into which those of `s` go.
  pub slice_opened :
      (s : ℕ → A) (so m r : ℕ)
      → slice (moved (moved f f (o + i + m) (o + i) r) s (o + i) so m) o (i + m + r)
        ≡ slice f o i ++ (slice s so m ++ slice f (o + i) r)
  slice_opened s so m r =
      let g = moved f f (o + i + m) (o + i) r in
      let h = moved g s (o + i) so m in
      ap (slice h o) {y = i + (m + r)} (omega arith)
      ∙ slice-append h o i (m + r)
      ∙ ap₂ ◌++◌
          (slice-moved_outside g s (o + i) so m o i (inl (omega arith))
            ∙ slice-moved_outside f f (o + i + m) (o + i) r o i (inl (omega arith)))
          (slice-append h (o + i) m r
            ∙ ap₂ ◌++◌ (slice-moved_inside g s (o + i) so m) (
                slice-moved_outside g s (o + i) so m (o + i + m) r (inr (omega arith))
                ∙ slice-moved_inside f f (o + i + m) (o + i) r))
