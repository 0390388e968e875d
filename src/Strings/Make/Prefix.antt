-- ===== src/Strings/Make/Prefix.antt =====
-- fth_make_string_len of src/string.c makes a string of the first characters of a text.
use fth.Base.{
  ℕ, ◌+◌, ◌-◌, ◌≤◌, ◌<◌, ◌≡◌, refl, sym, ap, ◌∙◌, inl, inr, List, length, take, arith, ℤ, pos,
  negsuc, Option, some, ok, throw, out_of_range,
}
use fth.Memory.{update}
use fth.Memory.Slice.{slice, length-slice, take-slice}
use fth.Memory.Writes.{store-in, slice-update_outside, update_eq}
use fth.Strings.{FString, view}
use fth.Strings.Valid.{IsValid}
use fth.Strings.Libc.{Pointer, strlen}
use fth.Strings.Libc.Text.{scan-slice_prefix, strlen-c_string}
use fth.Strings.Make.{or_empty, make_copy, at_most, fth_make_string_len}
use fth.Strings.Make.Fresh.{Creates, Reads, or_empty-Reads, make_copy-Creates}

at_most_le : (len : ℤ) (n : ℕ) → at_most len n ≤ n
unfolding at_most
at_most_le (pos len) n = ground arith
at_most_le (negsuc k) n = omega arith

make_len_run :
    (str : Option Pointer) (len : ℤ) (p : Pointer) (n : ℕ) (s : FString)
    → or_empty str ≡ some p
    → strlen p ≡ some n
    → make_copy p (at_most len n) ≡ ok s
    → s.data_offset + at_most len n < s.buf.size
    → fth_make_string_len str len
      ≡ ok (record s {
        buf = record s.buf { cell = update s.buf.cell (s.data_offset + at_most len n) 0 };
      })
unfolding fth_make_string_len
make_len_run str len p n s a b c lt =
    let put = store-in s.buf (s.data_offset + at_most len n) 0 lt in
    rw (a, b, c, put, fth_make_string_len) refl

make_len_refuses :
    (str : Option Pointer) (len : ℤ) (p : Pointer) (n : ℕ)
    → or_empty str ≡ some p
    → strlen p ≡ some n
    → make_copy p (at_most len n) ≡ throw out_of_range
    → fth_make_string_len str len ≡ throw out_of_range
unfolding fth_make_string_len
make_len_refuses str len p n a b c = rw (a, b, c, fth_make_string_len) refl

-- The NUL byte that is put behind the characters of a valid string changes nothing.
ended_again :
    (s : FString) (n : ℕ) (cs : List ℕ)
    → IsValid s
    → view s ≡ cs
    → length cs ≡ n
    → IsValid (record s { buf = record s.buf { cell = update s.buf.cell (s.data_offset + n) 0 } })
      × (view (record s { buf = record s.buf { cell = update s.buf.cell (s.data_offset + n) 0 } })
          ≡ cs)
ended_again s n cs v e l =
    let b = v.bounded in
    let len : n ≡ s.length =
      omega (arith, l, ap length e, length-slice s.buf.cell s.data_offset s.length) in
    (
      record {
        bounded = record {
          sized = b.sized;
          aimed = b.aimed;
          fits = b.fits;
          clear = b.clear;
          wide = b.wide;
        };
        ended =
            update_eq s.buf.cell (s.data_offset + n) 0 (s.data_offset + s.length)
              (omega (arith, len));
      },
      slice-update_outside s.buf.cell (s.data_offset + n) 0 s.data_offset s.length
            (inr (omega (arith, len)))
          ∙ e,
    )

-- `fth_make_string_len` makes a valid string of the first `len` characters of the text, or of all
-- where there are fewer or `len` is negative, or raises OUT-OF-RANGE where these are more than the
-- limit.
pub fth_make_string_len-Creates :
    (str : Option Pointer) (len : ℤ) (cs : List ℕ)
    → Reads str cs
    → Creates (fth_make_string_len str len) (take (at_most len (length cs)) cs)
fth_make_string_len-Creates str len cs r =
    let (p, given, text) = or_empty-Reads str cs r in
    let (lt, cells, _) =
      scan-slice_prefix p.block.cell p.offset (p.block.size - p.offset) cs text in
    let n = at_most len (length cs) in
    let le = at_most_le len (length cs) in
    let part : slice p.block.cell p.offset n ≡ take n cs =
      sym (take-slice p.block.cell p.offset n (length cs) le) ∙ ap (take n) cells in
    let count : length (take n cs) ≡ n =
      ap length (sym part) ∙ length-slice p.block.cell p.offset n in
    let measured = strlen-c_string p cs text in
    elim (make_copy-Creates p n (take n cs) (omega (arith, lt, le)) part) [
      | inr (run, long) ↦ inr (make_len_refuses str len p (length cs) given measured run, long)
      | inl (s, run, v, holds) ↦
          let b = v.bounded in
          let l : s.length ≡ n =
            sym (length-slice s.buf.cell s.data_offset s.length) ∙ ap length holds ∙ count in
          let (v', holds') = ended_again s n (take n cs) v holds count in
          inl (
            record s { buf = record s.buf { cell = update s.buf.cell (s.data_offset + n) 0 } },
            make_len_run str len p (length cs) s given measured run
                (omega (arith, b.sized, b.aimed, b.fits, l)),
            v',
            holds',
          )
    ]
