-- ===== src/Strings/Make/Fresh.antt =====
-- What the makers return: a valid string of the characters that the C library reads.
use fth.Base.{
  ℕ, ◌+◌, ◌-◌, ◌/◌, ◌≤◌, ◌<◌, ◌≡◌, refl, sym, ap, ◌∙◌, ◌⊎◌, inl, inr, false, ltb, ltb→lt, List, [],
  ◌∷◌, length, ◌==◌, ==_iff, arith, Bool-cases, pos, Option, none, some, Outcome, ok, throw,
  out_of_range,
}
use mathlib.Core.Path.{subst}
use fth.Memory.{moved, calloc}
use fth.Memory.Slice.{slice, length-slice}
use fth.Memory.Writes.{load-in, memmove-in, slice-moved_inside, moved_outside}
use fth.Array.{new_seq_length, max_seq_length}
use fth.Strings.{FString, view, make_string_len}
use fth.Strings.Valid.{IsValid, IsBounded, IsText}
use fth.Strings.Libc.{Pointer, scan, c_string, strlen}
use fth.Strings.Libc.Text.{scan-slice_prefix, strlen-c_string}
use fth.Strings.Make.{empty_literal, or_empty, copy_bytes, make_copy, make_string}

-- The maker returns a valid string that holds `cs`, or raises OUT-OF-RANGE because there are more
-- than the limit.
abbrev pub Creates : Outcome FString → List ℕ → Type 0
Creates r cs =
    ((s : FString) × (r ≡ ok s) × IsValid s × (view s ≡ cs))
    ⊎ ((r ≡ throw out_of_range) × (max_seq_length < length cs))

-- the structure that `make_string_len` returns
fresh_string : ℕ → FString
fresh_string n = record {
  length = n;
  buf_length = new_seq_length (n + 1 + new_seq_length (n + 1) / 3);
  top = new_seq_length (n + 1) / 3;
  data_offset = new_seq_length (n + 1) / 3;
  buf = record { size = new_seq_length (n + 1 + new_seq_length (n + 1) / 3); cell = λ _. 0 };
  changed_p = false;
}

make_string_len-cases :
    (n : ℕ)
    → (make_string_len (pos n) ≡ ok (fresh_string n))
      ⊎ ((make_string_len (pos n) ≡ throw out_of_range) × (max_seq_length < n))
unfolding make_string_len calloc fresh_string
make_string_len-cases n = elim (Bool-cases (ltb max_seq_length n)) [
  | inl long ↦ inr (rw (long, make_string_len) refl, ltb→lt _ _ long)
  | inr fits ↦ inl (rw (fits, make_string_len) refl)
]

fresh_string-IsBounded : (n : ℕ) → IsBounded (fresh_string n)
unfolding fresh_string
fresh_string-IsBounded n = record {
  sized = refl;
  aimed = refl;
  fits = omega arith;
  clear = omega arith;
  wide = omega arith;
}

-- a fresh string with the bytes of `p`
copied : Pointer → ℕ → FString
copied p n = record (fresh_string n) {
  buf = record (fresh_string n).buf {
    cell = moved (fresh_string n).buf.cell p.block.cell (fresh_string n).data_offset p.offset n;
  };
}

copied-IsValid : (p : Pointer) (n : ℕ) → IsValid (copied p n)
unfolding copied fresh_string
copied-IsValid p n =
    let b = fresh_string-IsBounded n in
    let s = fresh_string n in
    record {
      bounded = record {
        sized = refl;
        aimed = refl;
        fits = b.fits;
        clear = b.clear;
        wide = b.wide;
      };
      ended =
          moved_outside s.buf.cell p.block.cell s.data_offset p.offset n (s.data_offset + n)
            (inr (omega arith));
    }

copied-view : (p : Pointer) (n : ℕ) → view (copied p n) ≡ slice p.block.cell p.offset n
unfolding copied fresh_string
copied-view p n =
    let s = fresh_string n in slice-moved_inside s.buf.cell p.block.cell s.data_offset p.offset n

copied_length : (p : Pointer) (n : ℕ) → (copied p n).length ≡ n
unfolding copied fresh_string
copied_length p n = refl

make_copy-cases :
    (p : Pointer) (n : ℕ)
    → p.offset + n ≤ p.block.size
    → (make_copy p n ≡ ok (copied p n))
      ⊎ ((make_copy p n ≡ throw out_of_range) × (max_seq_length < n))
unfolding make_copy copy_bytes copied fresh_string
make_copy-cases p n h = elim (make_string_len-cases n) [
  | inr (run, long) ↦ inr (rw (run, make_copy) refl, long)
  | inl run ↦
      let s = fresh_string n in
      let b = fresh_string-IsBounded n in
      let move = memmove-in s.buf s.data_offset p.block p.offset n (omega (arith, b.fits)) h in
      inl (rw (run, move, make_copy, copy_bytes) refl)
]

pub make_copy-Creates :
    (p : Pointer) (n : ℕ) (cs : List ℕ)
    → p.offset + n ≤ p.block.size
    → slice p.block.cell p.offset n ≡ cs
    → Creates (make_copy p n) cs
make_copy-Creates p n cs h e = elim (make_copy-cases p n h) [
  | inl run ↦ inl (copied p n, run, copied-IsValid p n, copied-view p n ∙ e)
  | inr (run, long) ↦
      inr (run, omega (arith, long, ap length e, length-slice p.block.cell p.offset n))
]

-- The text that a maker is handed: NULL counts as the empty one.
abbrev pub Reads : Option Pointer → List ℕ → Type 0
Reads none cs = cs ≡ []
Reads (some p) cs = c_string p ≡ some cs

-- The pointer that the makers go on with, and what it points at.
pub or_empty-Reads :
    (str : Option Pointer) (cs : List ℕ)
    → Reads str cs
    → (p : Pointer) × (or_empty str ≡ some p) × (c_string p ≡ some cs)
unfolding or_empty scan
or_empty-Reads none cs e = (empty_literal, refl, ap (λ l. some l) (sym e))
or_empty-Reads (some p) cs e =
    let (lt, cells, text) =
      scan-slice_prefix p.block.cell p.offset (p.block.size - p.offset) cs e in
    let first = load-in p.block p.offset (omega (arith, lt)) in
    elim (Bool-cases (p.block.cell p.offset == 0)) [
      | inr f ↦ (p, rw (first, f, or_empty) refl, e)
      | inl t ↦ (
        empty_literal,
        rw (first, t, or_empty) refl,
        ap (λ l. some l) (sym (none_read cs cells text ((==_iff (p.block.cell p.offset) 0).0 t))),
      )
    ]
  where
    none_read :
        (cs : List ℕ)
        → slice p.block.cell p.offset (length cs) ≡ cs
        → IsText cs
        → p.block.cell p.offset ≡ 0
        → cs ≡ []
    none_read [] s t z = refl
    none_read (c ∷ cs) s (t, _) z =
        let same : p.block.cell p.offset ≡ c = cc in absurd (t (sym same ∙ z))

make_string_run :
    (str : Option Pointer) (p : Pointer) (n : ℕ)
    → or_empty str ≡ some p
    → strlen p ≡ some n
    → make_string str ≡ make_copy p n
unfolding make_string
make_string_run str p n a b = rw (a, b, make_string) refl

-- `fth_make_string` makes a valid string of the text that it is handed, the empty one where that is
-- NULL, or raises OUT-OF-RANGE where there are more characters than the limit.
pub make_string-Creates :
    (str : Option Pointer) (cs : List ℕ) → Reads str cs → Creates (make_string str) cs
make_string-Creates str cs r =
    let (p, given, text) = or_empty-Reads str cs r in
    let (lt, cells, _) =
      scan-slice_prefix p.block.cell p.offset (p.block.size - p.offset) cs text in
    subst (λ m. Creates m cs)
      (sym (make_string_run str p (length cs) given (strlen-c_string p cs text)))
      (make_copy-Creates p (length cs) cs (omega (arith, lt)) cells)
