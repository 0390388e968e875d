-- ===== src/Strings/Make/Cells.antt =====
-- fth_string_to_array makes an array of the characters.
use fth.Base.{ℕ, ◌+◌, ◌<◌, ◌≡◌, refl, sym, ap, ◌∙◌, map, arith, none, some}
use mathlib.Core.Path.{subst}
use fth.Memory.{load}
use fth.Memory.Slice.{map-slice, slice_from}
use fth.Memory.Writes.{load-in}
use fth.Array.{make_array_instance}
use fth.Array.Access.Make.{Makes, make_array_instance-Wraps, make_filled-Makes}
use fth.Strings.{FString, view}
use fth.Strings.Valid.{IsBounded}
use fth.Strings.Make.{string_to_array}

module _ {ℓ} {A : Type ℓ} where
  char_loaded :
      (char : ℕ → A) (s : FString) (k : ℕ)
      → IsBounded s
      → k < s.length
      → elim (load s.buf (s.data_offset + k)) [ none ↦ none | some c ↦ some (char c) ]
        ≡ some (char (s.buf.cell (s.data_offset + k)))
  char_loaded char s k b lt =
      let here = load-in s.buf (s.data_offset + k) (omega (arith, b.sized, b.aimed, b.fits)) in
      rw here refl

  -- `string_to_array` makes a valid array of the objects of the characters, in order, or raises
  -- OUT-OF-RANGE where the array's buffer would be longer than the limit.
  pub string_to_array-Makes :
      (z : A) (char : ℕ → A) (s : FString)
      → IsBounded s
      → Makes (string_to_array z char s) (map char (view s))
  unfolding string_to_array
  string_to_array-Makes z char s b =
      subst (Makes (string_to_array z char s))
        (sym (map-slice char (λ k. s.buf.cell (s.data_offset + k)) 0 s.length)
          ∙ ap (map char) (slice_from s.buf.cell s.data_offset s.length))
        (make_filled-Makes make_array_instance z s.length
          (λ i. elim (load s.buf (s.data_offset + i)) [ none ↦ none | some c ↦ some (char c) ])
          (λ k. char (s.buf.cell (s.data_offset + k))) make_array_instance-Wraps
          (λ k lt. char_loaded char s k b lt))
