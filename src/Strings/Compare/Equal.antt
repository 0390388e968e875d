-- ===== src/Strings/Compare/Equal.antt =====
-- The comparisons are those of the characters: two valid strings without NUL characters are equal
-- when their characters are, and less in the order of the dictionary.
use fth.Base.{
  ℕ, zero, suc, ◌≡◌, ◌↔◌, refl, sym, ap, ◌∙◌, inl, inr, Bool, true, false, ◌==◌, ==_iff,
  is_negative, ℤ, pos, negsuc, List, length, ok, some, arith, Bool-cases,
}
use mathlib.Core.Path.{subst}
use fth.Memory.Slice.{slice, length-slice}
use fth.Strings.{FString, view}
use fth.Strings.Valid.{IsValid, IsText}
use fth.Strings.Libc.{strcmp}
use fth.Strings.Libc.Text.{c_string-IsText}
use fth.Strings.Libc.Order.{
  Precedes, Precedes-irreflexive, Precedes-asymmetric, Compares, strcmp-Compares,
}
use fth.Strings.Compare.{
  compare_data, compare_with, is_zero, is_positive, string_equal_p, string_less_p, string_greater_p,
  str_equal_p,
}

-- A string that the C library reads to its end.
pub record IsReadable (s : FString) : Type 0 where
  pub valid : IsValid s
  pub text : IsText (view s)

compare_data-view :
    (s o : FString) → IsReadable s → IsReadable o → compare_data s o ≡ ok (strcmp (view s) (view o))
unfolding compare_data
compare_data-view s o r q =
    let first = c_string-IsText s r.valid r.text in
    let second = c_string-IsText o q.valid q.text in rw (first, second, compare_data) refl

pub compare_with-strcmp :
    (test : ℤ → Bool) (s o : FString)
    → IsReadable s
    → IsReadable o
    → compare_with test (some s) (some o) ≡ ok (test (strcmp (view s) (view o)))
unfolding compare_with
compare_with-strcmp test s o r q =
    let run = compare_data-view s o r q in rw (run, compare_with) refl

zero_iff : (z : ℤ) (xs ys : List ℕ) → Compares z xs ys → (is_zero z ≡ true) ↔ (xs ≡ ys)
zero_iff (pos zero) xs ys h = ((λ _. h), (λ _. refl))
zero_iff (pos (suc n)) xs ys h = (
  (λ e. absurd (ground (arith, e))),
  (λ e. absurd (Precedes-irreflexive xs (subst (λ l. Precedes l xs) (sym e) h))),
)
zero_iff (negsuc n) xs ys h = (
  (λ e. absurd (ground (arith, e))),
  (λ e. absurd (Precedes-irreflexive xs (subst (Precedes xs) (sym e) h))),
)

less_iff : (z : ℤ) (xs ys : List ℕ) → Compares z xs ys → (is_negative z ≡ true) ↔ Precedes xs ys
less_iff (pos zero) xs ys h = (
  (λ e. absurd (ground (arith, e))),
  (λ p. absurd (Precedes-irreflexive xs (subst (Precedes xs) (sym h) p))),
)
less_iff (pos (suc n)) xs ys h =
    ((λ e. absurd (ground (arith, e))), (λ p. absurd (Precedes-asymmetric xs ys p h)))
less_iff (negsuc n) xs ys h = ((λ _. h), (λ _. refl))

greater_iff : (z : ℤ) (xs ys : List ℕ) → Compares z xs ys → (is_positive z ≡ true) ↔ Precedes ys xs
greater_iff (pos zero) xs ys h = (
  (λ e. absurd (ground (arith, e))),
  (λ p. absurd (Precedes-irreflexive xs (subst (λ l. Precedes l xs) (sym h) p))),
)
greater_iff (pos (suc n)) xs ys h = ((λ _. h), (λ _. ground arith))
greater_iff (negsuc n) xs ys h =
    ((λ e. absurd (ground (arith, e))), (λ p. absurd (Precedes-asymmetric xs ys h p)))

-- A test that means `P` of the two texts gives a comparison that does.
pub decided :
    (test : ℤ → Bool) (P : Type 0) (s o : FString)
    → IsReadable s
    → IsReadable o
    → (test (strcmp (view s) (view o)) ≡ true) ↔ P
    → (b : Bool) × (compare_with test (some s) (some o) ≡ ok b) × ((b ≡ true) ↔ P)
decided test P s o r q d = (test (strcmp (view s) (view o)), compare_with-strcmp test s o r q, d)

-- `string_equal_p` of two valid strings without NUL characters says whether they hold the same
-- characters, `string_less_p` whether the first comes before the second in the dictionary, and
-- `string_greater_p` whether it comes behind.
pub string_compare-view :
    (s o : FString)
    → IsReadable s
    → IsReadable o
    → ((b : Bool) × (string_equal_p (some s) (some o) ≡ ok b) × ((b ≡ true) ↔ (view s ≡ view o)))
      × ((b : Bool) × (string_less_p (some s) (some o) ≡ ok b)
          × ((b ≡ true) ↔ Precedes (view s) (view o)))
      × ((b : Bool) × (string_greater_p (some s) (some o) ≡ ok b)
          × ((b ≡ true) ↔ Precedes (view o) (view s)))
string_compare-view s o r q =
    let c = strcmp-Compares (view s) (view o) in
    let z = strcmp (view s) (view o) in
    (
      decided is_zero (view s ≡ view o) s o r q (zero_iff z (view s) (view o) c),
      decided is_negative (Precedes (view s) (view o)) s o r q (less_iff z (view s) (view o) c),
      decided is_positive (Precedes (view o) (view s)) s o r q (greater_iff z (view s) (view o) c),
    )

-- `equal?`, which compares the lengths first, says the same as `string=`, also of empty strings.
pub str_equal_p-string_equal_p :
    (s o : FString)
    → IsReadable s
    → IsReadable o
    → str_equal_p s o ≡ string_equal_p (some s) (some o)
unfolding str_equal_p
str_equal_p-string_equal_p s o r q =
    let run = compare_data-view s o r q in
    let c =
      zero_iff (strcmp (view s) (view o)) (view s) (view o) (strcmp-Compares (view s) (view o)) in
    compared c run ∙ sym (compare_with-strcmp is_zero s o r q)
  where
    compared :
        (is_zero (strcmp (view s) (view o)) ≡ true) ↔ (view s ≡ view o)
        → compare_data s o ≡ ok (strcmp (view s) (view o))
        → str_equal_p s o ≡ ok (is_zero (strcmp (view s) (view o)))
    compared c run = elim (Bool-cases (s.length == o.length)) [
      | inr f ↦ rw (f, str_equal_p) (ap (λ b. ok b) (sym (differ c f)))
      | inl t ↦ elim (Bool-cases (s.length == 0)) [
        | inl e ↦ rw (t, e, str_equal_p) (ap (λ b. ok b) (sym (c.1 (both_empty t e))))
        | inr e ↦ rw (t, e, run, str_equal_p) refl
      ]
    ]
      where
        differ :
            (is_zero (strcmp (view s) (view o)) ≡ true) ↔ (view s ≡ view o)
            → (s.length == o.length) ≡ false
            → is_zero (strcmp (view s) (view o)) ≡ false
        differ c f = elim (Bool-cases (is_zero (strcmp (view s) (view o)))) [
          | inr e ↦ e
          | inl e ↦
              let same : s.length ≡ o.length =
                sym (length-slice s.buf.cell s.data_offset s.length)
                ∙ ap length (c.0 e)
                ∙ length-slice o.buf.cell o.data_offset o.length in
              absurd (ground (arith, same, f))
        ]

        both_empty : (s.length == o.length) ≡ true → (s.length == 0) ≡ true → view s ≡ view o
        both_empty t e =
            let zs = (==_iff s.length 0).0 e in
            let zo : o.length ≡ 0 = ground (arith, t, e) in
            ap (slice s.buf.cell s.data_offset) zs ∙ sym (ap (slice o.buf.cell o.data_offset) zo)
