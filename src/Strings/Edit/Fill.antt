-- ===== src/Strings/Edit/Fill.antt =====
-- fth_string_fill writes one character over all.
use fth.Base.{ℕ, ◌+◌, refl, ap, ◌∙◌, inr, replicate, arith, some}
use fth.Memory.Slice.{slice, slice_const}
use fth.Memory.Writes.{store_each-Filled, slice-Filled}
use fth.Strings.{FString}
use fth.Strings.Valid.{IsValid, Yields}
use fth.Strings.Edit.{string_fill}

-- `string_fill` leaves a valid string valid, of the same length, with the given character in every
-- place.
pub string_fill-Yields :
    (c : ℕ) (s : FString) → IsValid s → Yields (string_fill c s) tt (replicate s.length c)
unfolding string_fill
string_fill-Yields c s v =
    let b = v.bounded in
    let (b', run, f) =
      store_each-Filled (λ _. some c) (λ _. c) s.data_offset 0 s.length s.buf (λ k lt. refl)
        (omega (arith, b.sized, b.aimed, b.fits)) in
    rw (run, string_fill)
      (record {
        returns = refl;
        valid = record {
          bounded = record {
            sized = f.same_size ∙ b.sized;
            aimed = b.aimed;
            fits = b.fits;
            clear = b.clear;
            wide = b.wide;
          };
          ended = f.outside (s.data_offset + s.length) (inr (omega arith)) ∙ v.ended;
        };
        holds =
            ap (λ i. slice b'.cell i s.length) {y = s.data_offset + 0} (omega arith)
            ∙ slice-Filled s.buf (λ _. c) s.data_offset 0 s.length b' f
            ∙ slice_const c 0 s.length;
      })
