-- ===== src/Strings/Valid.antt =====
-- What the operations of src/string.c rely on: the characters and the NUL byte behind them lie
-- inside the buffer, and `data` points at the first.
use fth.Base.{
  ℕ, zero, suc, ◌+◌, ◌≤◌, ◌<◌, ◌≡◌, ◌≢◌, refl, sym, ap, ◌∙◌, ◌⊎◌, inl, inr, List, [], ◌∷◌, arith,
  ltb, ltb→lt, ltb_false→le, Bool-cases, ok, throw, out_of_range,
}
use mathlib.Core.Path.{subst}
use fth.Memory.{realloc}
use fth.Memory.Slice.{slice}
use fth.Memory.Writes.{slice-realloc}
use fth.Array.{max_seq_length, new_seq_length}
use fth.Strings.{FString, Method, view, string_resize, string_reserve, string_shrink}

pub record IsBounded (s : FString) : Type 0 where
  pub sized : s.buf.size ≡ s.buf_length
  pub aimed : s.data_offset ≡ s.top
  pub fits : s.top + s.length + 1 ≤ s.buf_length
  pub clear : 0 < s.top
  pub wide : 128 ≤ s.buf_length

-- The NUL byte that the C functions on strings look for stands behind the last character.
pub record IsValid (s : FString) : Type 0 where
  pub bounded : IsBounded s
  pub ended : s.buf.cell (s.data_offset + s.length) ≡ 0

-- No character is the NUL byte.
abbrev pub IsText : List ℕ → Type 0
IsText [] = Unit
IsText (c ∷ cs) = (c ≢ 0) × IsText cs

-- The call returns `b` and leaves a valid string that holds `cs`.
pub record Yields {κ} {B : Type κ} (r : Method B) (b : B) (cs : List ℕ) : Type κ where
  pub returns : r.0 ≡ ok b
  pub valid : IsValid r.1
  pub holds : view r.1 ≡ cs

-- The call raises OUT-OF-RANGE and leaves the string as it was, which happens only where the
-- buffer has to grow beyond its limit.
abbrev pub Refuses {κ} : {B : Type κ} → Method B → FString → ℕ → Type κ
Refuses r s needed =
    (r ≡ (throw out_of_range, s))
    × (s.buf_length < needed)
    × (max_seq_length < new_seq_length needed)

resized_cell :
    (fresh : ℕ → ℕ) (l i : ℕ) (s : FString)
    → i < l
    → i < s.buf.size
    → (string_resize fresh l s).buf.cell i ≡ s.buf.cell i
unfolding string_resize realloc
resized_cell fresh l i s lt within = ground arith

resize_fields :
    (fresh : ℕ → ℕ) (l : ℕ) (s : FString)
    → ((string_resize fresh l s).top ≡ s.top)
      × ((string_resize fresh l s).length ≡ s.length)
      × ((string_resize fresh l s).buf_length ≡ l)
      × ((string_resize fresh l s).data_offset ≡ s.top)
      × ((string_resize fresh l s).buf.size ≡ l)
unfolding string_resize realloc
resize_fields fresh l s = (refl, refl, refl, refl, refl)

-- A resized string with room for its characters is as it was.
pub record Resized (s b : FString) : Type 0 where
  pub valid : IsValid b
  pub same_top : b.top ≡ s.top
  pub same_length : b.length ≡ s.length
  pub same_view : view b ≡ view s

view-resize :
    (fresh : ℕ → ℕ) (l : ℕ) (s : FString)
    → IsBounded s
    → s.top + s.length ≤ l
    → view (string_resize fresh l s) ≡ view s
unfolding string_resize realloc
view-resize fresh l s v h =
    slice-realloc fresh s.buf l s.top s.length (omega (arith, v.sized, v.fits))
    ∙ ap (λ k. slice s.buf.cell k s.length) (sym v.aimed)

pub resize-Resized :
    (fresh : ℕ → ℕ) (l : ℕ) (s : FString)
    → IsValid s
    → s.top + s.length + 1 ≤ l
    → 128 ≤ l
    → Resized s (string_resize fresh l s)
resize-Resized fresh l s v h wide =
    let b = v.bounded in
    let (top, length, size, off, cells) = resize_fields fresh l s in
    record {
      valid = record {
        bounded = record {
          sized = cells ∙ sym size;
          aimed = off ∙ sym top;
          fits = omega (arith, top, length, size, h);
          clear = omega (arith, top, b.clear);
          wide = omega (arith, size, wide);
        };
        ended =
            ap (string_resize fresh l s).buf.cell {y = s.top + s.length}
              (omega (arith, off, length))
            ∙ resized_cell fresh l (s.top + s.length) s (omega arith)
                (omega (arith, b.sized, b.fits))
            ∙ ap s.buf.cell {y = s.data_offset + s.length} (omega (arith, b.aimed))
            ∙ v.ended;
      };
      same_top = top;
      same_length = length;
      same_view = view-resize fresh l s b (omega arith);
    }

-- `string_reserve` either makes room, or raises OUT-OF-RANGE where the buffer would pass its limit.
pub string_reserve-Resized :
    (fresh : ℕ → ℕ) (needed : ℕ) (s : FString)
    → IsValid s
    → s.top + s.length + 1 ≤ needed
    → ((b : FString) × (string_reserve fresh needed s ≡ ok b)
        × Resized s b
        × (needed ≤ b.buf_length))
      ⊎ ((string_reserve fresh needed s ≡ throw out_of_range)
          × (s.buf_length < needed)
          × (max_seq_length < new_seq_length needed))
unfolding string_reserve
string_reserve-Resized fresh needed s v h = elim (Bool-cases (ltb s.buf_length needed)) [
  | inr enough ↦ inl (
    s,
    rw (enough, string_reserve) refl,
    record { valid = v; same_top = refl; same_length = refl; same_view = refl },
    ltb_false→le _ _ enough,
  )
  | inl short ↦ elim (Bool-cases (ltb max_seq_length (new_seq_length needed))) [
    | inl long ↦ inr (rw (short, long, string_reserve) refl, ltb→lt _ _ short, ltb→lt _ _ long)
    | inr fits ↦ inl (
      string_resize fresh (new_seq_length needed) s,
      rw (short, fits, string_reserve) refl,
      resize-Resized fresh (new_seq_length needed) s v (omega (arith, h)) (omega arith),
      omega (arith, (resize_fields fresh (new_seq_length needed) s).2),
    )
  ]
]

pub string_shrink-Resized :
    (fresh : ℕ → ℕ) (l : ℕ) (s : FString)
    → IsValid s
    → s.top + s.length + 1 ≤ l
    → 128 ≤ l
    → Resized s (string_shrink fresh l s)
unfolding string_shrink
string_shrink-Resized fresh l s v h wide = elim (Bool-cases (ltb l s.buf_length)) [
  | inl long ↦ rw (long, string_shrink) (resize-Resized fresh l s v h wide)
  | inr short ↦
      rw (short, string_shrink)
        (record { valid = v; same_top = refl; same_length = refl; same_view = refl })
]

-- No cell of a run of characters is the NUL byte.
pub IsText-cell : (f : ℕ → ℕ) (i n k : ℕ) → IsText (slice f i n) → k < n → f (i + k) ≢ 0
IsText-cell f i zero k t lt = absurd (omega arith)
IsText-cell f i (suc n) zero (c, t) lt = subst (λ j. f j ≢ 0) {x = i} (omega arith) c
IsText-cell f i (suc n) (suc k) (c, t) lt =
    subst (λ j. f j ≢ 0) {x = suc i + k} (omega arith) (IsText-cell f (suc i) n k t (omega arith))

-- What shrinking keeps of a string that need not have its NUL byte.
pub record Shrunk (s b : FString) : Type 0 where
  pub bounded : IsBounded b
  pub same_top : b.top ≡ s.top
  pub same_length : b.length ≡ s.length
  pub kept :
      (n : ℕ)
      → n ≤ s.length + 1
      → slice b.buf.cell b.data_offset n ≡ slice s.buf.cell s.data_offset n

pub string_shrink-Shrunk :
    (fresh : ℕ → ℕ) (l : ℕ) (s : FString)
    → IsBounded s
    → s.top + s.length + 1 ≤ l
    → 128 ≤ l
    → Shrunk s (string_shrink fresh l s)
unfolding string_shrink string_resize realloc
string_shrink-Shrunk fresh l s b h wide = elim (Bool-cases (ltb l s.buf_length)) [
  | inl long ↦
      rw (long, string_shrink)
        (record {
          bounded = record { sized = refl; aimed = refl; fits = h; clear = b.clear; wide = wide };
          same_top = refl;
          same_length = refl;
          kept = λ n le.
              slice-realloc fresh s.buf l s.top n (omega (arith, b.sized, b.fits, le))
              ∙ ap (λ k. slice s.buf.cell k n) (sym b.aimed);
        })
  | inr short ↦
      rw (short, string_shrink)
        (record { bounded = b; same_top = refl; same_length = refl; kept = λ n le. refl })
]

pub IsText-slice : (f : ℕ → ℕ) (i n : ℕ) → ((k : ℕ) → k < n → f (i + k) ≢ 0) → IsText (slice f i n)
IsText-slice f i zero h = tt
IsText-slice f i (suc n) h = (
  subst (λ j. f j ≢ 0) {x = i + 0} (omega arith) (h 0 (omega arith)),
  IsText-slice f (suc i) n
      (λ k lt. subst (λ j. f j ≢ 0) {x = i + suc k} (omega arith) (h (suc k) (omega arith))),
)
