-- ===== src/Strings/Chars/Case.antt =====
-- The loops that change every character: the changes of case and the replacing of one character.
use fth.Base.{
  ℕ, zero, suc, ◌+◌, ◌-◌, ◌<◌, ◌≤◌, ◌≡◌, refl, sym, ap, ◌∙◌, inl, inr, true, false, ◌==◌, ==_iff,
  if◌then◌else◌, List, [], ◌∷◌, map, arith, Bool-cases, ok, some, length,
}
use mathlib.Core.Path.{subst, ap₂}
use fth.Memory.{Block, update}
use fth.Memory.Slice.{slice, slice_ext, slice_from, map-slice, slice_uncons, length-slice}
use fth.Memory.Writes.{
  Filled, Filled-suc, slice-Filled, update_ne, load-in, store-in, slice-update_outside, update_eq,
}
use fth.Strings.{FString, view}
use fth.Strings.Valid.{IsValid, Yields}
use fth.Strings.Chars.{change_each, change_all, string_capitalize, replace_char}

change_each_done : (f : ℕ → ℕ) (off start : ℕ) (b : Block ℕ) → change_each f off start 0 b ≡ some b
unfolding change_each
change_each_done f off start b = refl

change_each_step :
    (f : ℕ → ℕ) (off start n : ℕ) (b : Block ℕ)
    → off + start < b.size
    → change_each f off start (suc n) b
      ≡ change_each f off
          (suc start)
          n
          (record b { cell = update b.cell (off + start) (f (b.cell (off + start))) })
unfolding change_each
change_each_step f off start n b lt =
    let first = load-in b (off + start) lt in
    let second = store-in b (off + start) (f (b.cell (off + start))) lt in
    rw (first, second, change_each) refl

-- The loop leaves at each place what `f` makes of the byte that was there.
change_each-Filled :
    (f : ℕ → ℕ) (off start n : ℕ) (b : Block ℕ)
    → off + start + n ≤ b.size
    → (b' : Block ℕ) × (change_each f off start n b ≡ some b')
      × Filled b (λ k. f (b.cell (off + k))) off start n b'
change_each-Filled f off start zero b fits = (
  b,
  change_each_done f off start b,
  record { same_size = refl; outside = λ j _. refl; inside = λ k lt. absurd (omega arith) },
)
change_each-Filled f off start (suc n) b fits =
    let c = record b { cell = update b.cell (off + start) (f (b.cell (off + start))) } in
    let (b', run, filled) = change_each-Filled f off (suc start) n c (omega arith) in
    (
      b',
      change_each_step f off start n b (omega arith) ∙ run,
      Filled-suc b (λ k. f (b.cell (off + k))) off start n b'
          (record {
            same_size = filled.same_size;
            outside = filled.outside;
            inside = λ k lt.
                filled.inside k lt
                ∙ ap f (
                    update_ne b.cell (off + start) (f (b.cell (off + start)))
                      (off + (suc start + k)) (inr (omega arith)));
          }),
    )

change_nothing : (f : ℕ → ℕ) (s : FString) → (s.length == 0) ≡ true → change_all f s ≡ (ok tt, s)
unfolding change_all
change_nothing f s t = rw (t, change_all) refl

change_run :
    (f : ℕ → ℕ) (s : FString) (b' : Block ℕ)
    → (s.length == 0) ≡ false
    → change_each f s.data_offset 0 s.length s.buf ≡ some b'
    → change_all f s ≡ (ok tt, record s { buf = b'; changed_p = true })
unfolding change_all
change_run f s b' t run = rw (t, run, change_all) refl

-- What the loop writes over a valid string leaves it valid.
Filled-IsValid :
    (g : ℕ → ℕ) (s : FString) (b' : Block ℕ)
    → IsValid s
    → Filled s.buf g s.data_offset 0 s.length b'
    → IsValid (record s { buf = b'; changed_p = true })
Filled-IsValid g s b' v f =
    let b = v.bounded in
    record {
      bounded = record {
        sized = f.same_size ∙ b.sized;
        aimed = b.aimed;
        fits = b.fits;
        clear = b.clear;
        wide = b.wide;
      };
      ended = f.outside (s.data_offset + s.length) (inr (omega arith)) ∙ v.ended;
    }

-- A loop that changes every character of a valid string by `f`, as `upcase`, `downcase` and the
-- replacing of a character do, leaves it valid, with what `f` makes of each character in its place.
pub change_all-Yields :
    (f : ℕ → ℕ) (s : FString) → IsValid s → Yields (change_all f s) tt (map f (view s))
change_all-Yields f s v = elim (Bool-cases (s.length == 0)) [
  | inl t ↦
      let none_there = ap (slice s.buf.cell s.data_offset) ((==_iff s.length 0).0 t) in
      subst (λ r. Yields r tt (map f (view s))) (sym (change_nothing f s t))
        (record { returns = refl; valid = v; holds = none_there ∙ sym (ap (map f) none_there) })
  | inr t ↦
      let b = v.bounded in
      let (b', run, filled) =
        change_each-Filled f s.data_offset 0 s.length s.buf
          (omega (arith, b.sized, b.aimed, b.fits)) in
      subst (λ r. Yields r tt (map f (view s))) (sym (change_run f s b' t run))
        (record {
          returns = refl;
          valid = Filled-IsValid (λ k. f (s.buf.cell (s.data_offset + k))) s b' v filled;
          holds =
              ap (λ i. slice b'.cell i s.length) {y = s.data_offset + 0} (omega arith)
              ∙ slice-Filled s.buf (λ k. f (s.buf.cell (s.data_offset + k))) s.data_offset 0
                  s.length b' filled
              ∙ sym (map-slice f (λ k. s.buf.cell (s.data_offset + k)) 0 s.length)
              ∙ ap (map f) (slice_from s.buf.cell s.data_offset s.length);
        })
]

-- Replacing `x` by `y` leaves each other character, and `y` where there was `x`.
pub replace_char-Yields :
    (x y : ℕ) (s : FString)
    → IsValid s
    → Yields (replace_char x y s) tt (map (λ c. if c == x then y else c) (view s))
unfolding replace_char
replace_char-Yields x y s v = change_all-Yields (λ c. if c == x then y else c) s v

-- the characters of a capitalized string
abbrev pub capitalized : (ℕ → ℕ) → (ℕ → ℕ) → List ℕ → List ℕ
capitalized toupper tolower [] = []
capitalized toupper tolower (c ∷ cs) = toupper c ∷ map tolower cs

capitalize_run :
    (toupper tolower : ℕ → ℕ) (s : FString) (b' : Block ℕ)
    → (s.length == 0) ≡ false
    → s.data_offset < s.buf.size
    → change_each tolower s.data_offset 1 (s.length - 1) (record s.buf {
      cell = update s.buf.cell s.data_offset (toupper (s.buf.cell s.data_offset));
    })
      ≡ some b'
    → string_capitalize toupper tolower s ≡ (ok tt, record s { buf = b'; changed_p = true })
unfolding string_capitalize
capitalize_run toupper tolower s b' t lt run =
    let first = load-in s.buf s.data_offset lt in
    let second = store-in s.buf s.data_offset (toupper (s.buf.cell s.data_offset)) lt in
    rw (t, first, second, run, string_capitalize) refl

-- `string_capitalize` leaves a valid string valid, with its first character as `toupper` gives it
-- and all others as `tolower` gives them.
pub string_capitalize-Yields :
    (toupper tolower : ℕ → ℕ) (s : FString) (cs : List ℕ)
    → IsValid s
    → view s ≡ cs
    → Yields (string_capitalize toupper tolower s) tt (capitalized toupper tolower cs)
unfolding string_capitalize
string_capitalize-Yields toupper tolower s [] v e =
    let len : s.length ≡ 0 = sym (length-slice s.buf.cell s.data_offset s.length) ∙ ap length e in
    let t : (s.length == 0) ≡ true = (==_iff s.length 0).1 len in
    rw (t, string_capitalize) (record { returns = refl; valid = v; holds = e })
string_capitalize-Yields toupper tolower s (c ∷ cs) v e =
    let b = v.bounded in
    let (first, rest, len) = slice_uncons s.buf.cell s.data_offset s.length c cs e in
    let some_left : (s.length == 0) ≡ false = ground (arith, len) in
    let g = update s.buf.cell s.data_offset (toupper (s.buf.cell s.data_offset)) in
    let (b', run, f) =
      change_each-Filled tolower s.data_offset 1 (s.length - 1) (record s.buf { cell = g })
        (omega (arith, b.sized, b.aimed, b.fits, len)) in
    subst (λ r. Yields r tt (toupper c ∷ map tolower cs))
      (sym (
        capitalize_run toupper tolower s b' some_left (omega (arith, b.sized, b.aimed, b.fits))
          run))
      (record {
        returns = refl;
        valid = record {
          bounded = record {
            sized = f.same_size ∙ b.sized;
            aimed = b.aimed;
            fits = b.fits;
            clear = b.clear;
            wide = b.wide;
          };
          ended =
              f.outside (s.data_offset + s.length) (inr (omega (arith, len)))
              ∙ update_ne s.buf.cell s.data_offset (toupper (s.buf.cell s.data_offset))
                  (s.data_offset + s.length) (inr (omega (arith, len)))
              ∙ v.ended;
        };
        holds =
            ap (slice b'.cell s.data_offset) {y = suc (s.length - 1)} (omega (arith, len))
            ∙ ap₂ ◌∷◌
                (f.outside s.data_offset (inl (omega arith))
                  ∙ update_eq s.buf.cell s.data_offset (toupper (s.buf.cell s.data_offset))
                      s.data_offset refl
                  ∙ ap toupper first)
                (tail_view b' f first rest);
      })
  where
    tail_view :
        (b' : Block ℕ)
        → Filled
            (record s.buf {
              cell = update s.buf.cell s.data_offset (toupper (s.buf.cell s.data_offset));
            })
            (λ k. tolower (
              update s.buf.cell s.data_offset
                (toupper (s.buf.cell s.data_offset))
                (s.data_offset + k)))
            s.data_offset
            1
            (s.length - 1)
            b'
        → s.buf.cell s.data_offset ≡ c
        → slice s.buf.cell (s.data_offset + 1) (s.length - 1) ≡ cs
        → slice b'.cell (suc s.data_offset) (s.length - 1) ≡ map tolower cs
    tail_view b' f first rest =
        let h = update s.buf.cell s.data_offset (toupper (s.buf.cell s.data_offset)) in
        ap (λ i. slice b'.cell i (s.length - 1)) {y = s.data_offset + 1} (omega arith)
        ∙ slice-Filled (record s.buf { cell = h }) (λ k. tolower (h (s.data_offset + k)))
            s.data_offset 1 (s.length - 1) b' f
        ∙ sym (map-slice tolower (λ k. h (s.data_offset + k)) 1 (s.length - 1))
        ∙ ap (map tolower) (
            slice_ext (λ k. h (s.data_offset + k)) h 1 (s.data_offset + 1) (s.length - 1)
              (λ k lt. ap h {y = s.data_offset + 1 + k} (omega arith))
            ∙ slice-update_outside s.buf.cell s.data_offset (toupper (s.buf.cell s.data_offset))
                (s.data_offset + 1) (s.length - 1) (inl (omega arith))
            ∙ rest)
