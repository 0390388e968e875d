-- ===== src/Strings/Ends/Pop.antt =====
-- fth_string_pop removes the last character and returns it.
use fth.Base.{
  ℕ, suc, ◌+◌, ◌≡◌, refl, sym, ap, ◌∙◌, true, List, [], ◌∷◌, ◌++◌, arith, inr, ok, some, length,
  length-append,
}
use mathlib.Core.Path.{subst}
use fth.Memory.{update}
use fth.Memory.Slice.{slice, slice_snoc, length-slice}
use fth.Memory.Writes.{load-in, store-in, slice-update_outside, update_eq}
use fth.Array.{new_seq_length}
use fth.Array.Ends.Pop.{snoc_injective}
use fth.Strings.{FString, view, string_shrink}
use fth.Strings.Valid.{IsValid, Yields, string_shrink-Resized}
use fth.Strings.Ends.{string_pop}

-- the string with the NUL byte on its last character
shortened : FString → ℕ → FString
shortened s n = record s {
  buf = record s.buf { cell = update s.buf.cell (s.data_offset + n) 0 };
  length = n;
  changed_p = true;
}

pop_run :
    (fresh : ℕ → ℕ) (s : FString) (n : ℕ)
    → IsValid s
    → s.length ≡ suc n
    → string_pop fresh s ≡ (
      ok (some (s.buf.cell (s.data_offset + n))),
      string_shrink fresh (new_seq_length (s.top + suc n)) (shortened s n),
    )
unfolding string_pop shortened
pop_run fresh s n v e =
    let b = v.bounded in
    let first = load-in s.buf (s.data_offset + n) (omega (arith, b.sized, b.aimed, b.fits, e)) in
    let second =
      store-in s.buf (s.data_offset + n) 0 (omega (arith, b.sized, b.aimed, b.fits, e)) in
    ground (arith, first, second)

shortened-IsValid : (s : FString) (n : ℕ) → IsValid s → s.length ≡ suc n → IsValid (shortened s n)
unfolding shortened
shortened-IsValid s n v e =
    let b = v.bounded in
    record {
      bounded = record {
        sized = b.sized;
        aimed = b.aimed;
        fits = omega (arith, b.fits, e);
        clear = b.clear;
        wide = b.wide;
      };
      ended = update_eq s.buf.cell (s.data_offset + n) 0 (s.data_offset + n) refl;
    }

-- From a valid string that holds `cs` and then `c`, `string_pop` returns `c` and leaves a valid
-- string that holds `cs`.
pub string_pop-Yields :
    (fresh : ℕ → ℕ) (s : FString) (cs : List ℕ) (c : ℕ)
    → IsValid s
    → view s ≡ cs ++ c ∷ []
    → Yields (string_pop fresh s) (some c) cs
unfolding shortened
string_pop-Yields fresh s cs c v e =
    let n = length cs in
    let len : s.length ≡ suc n = omega (
      arith,
      ap length e,
      length-slice s.buf.cell s.data_offset s.length,
      length-append cs (c ∷ []),
    ) in
    let (front, last) =
      snoc_injective (slice s.buf.cell s.data_offset n) cs (s.buf.cell (s.data_offset + n)) c (
        sym (slice_snoc s.buf.cell s.data_offset n)
        ∙ ap (slice s.buf.cell s.data_offset) {y = s.length} (omega (arith, len))
        ∙ e) in
    let r =
      string_shrink-Resized fresh (new_seq_length (s.top + suc n)) (shortened s n)
        (shortened-IsValid s n v len) (omega arith) (omega arith) in
    subst (λ m. Yields m (some c) cs) (sym (pop_run fresh s n v len))
      (record {
        returns = ap (λ x. ok (some x)) last;
        valid = r.valid;
        holds =
            r.same_view
            ∙ slice-update_outside s.buf.cell (s.data_offset + n) 0 s.data_offset n
                (inr (omega arith))
            ∙ front;
      })
