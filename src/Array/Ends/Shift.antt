-- ===== src/Array/Ends/Shift.antt =====
-- fth_array_shift removes the first element and returns it.
use fth.Base.{
  ℕ, suc, ◌+◌, ◌-◌, ◌/◌, ◌≤◌, ◌≡◌, refl, sym, ap, ◌∙◌, List, ◌∷◌, arith, ltb, ltb→lt, Bool-cases,
  inl, inr, ok, some,
}
use mathlib.Core.Path.{subst}
use fth.Memory.{realloc, moved}
use fth.Memory.Slice.{slice, slice_uncons}
use fth.Memory.Writes.{load-in, memmove-in, slice-moved_inside, slice-realloc}
use fth.Array.{FArray, view, new_seq_length}
use fth.Array.Valid.{IsValid, Yields}
use fth.Array.Ends.{recenter, drop_first, array_shift}

module _ {ℓ} {A : Type ℓ} where
  -- The array between the move and the update of `data`: the elements start at `top`.
  record Centred (a c : FArray A) : Type ℓ where
    sized : c.buf.size ≡ c.buf_length
    fits : c.top + c.length ≤ c.buf_length
    same_length : c.length ≡ a.length
    same_run : slice c.buf.cell c.top c.length ≡ view a

  recenter-Centred :
      (a : FArray A) → IsValid a → (c : FArray A) × (recenter a ≡ some c) × Centred a c
  unfolding recenter
  recenter-Centred a v = elim (Bool-cases (ltb (a.buf_length / 2) (a.top + 1))) [
    | inr near ↦ (
      a,
      rw near,
      record {
        sized = v.sized;
        fits = v.fits;
        same_length = refl;
        same_run = ap (λ k. slice a.buf.cell k a.length) (sym v.aimed);
      },
    )
    | inl far ↦
        let t = a.buf_length / 3 in
        let past = ltb→lt _ _ far in
        let f = moved a.buf.cell a.buf.cell t a.data_offset a.length in
        let go = memmove-in a.buf t a.buf a.data_offset a.length (omega arith) (omega arith) in
        (
          record a { top = t; buf = record a.buf { cell = f } },
          rw (far, go),
          record {
            sized = v.sized;
            fits = omega arith;
            same_length = refl;
            same_run = slice-moved_inside a.buf.cell a.buf.cell t a.data_offset a.length;
          },
        )
  ]

  drop_first-keeps :
      (fresh : ℕ → A) (a c : FArray A) (x : A) (xs : List A)
      → Centred a c
      → view a ≡ x ∷ xs
      → IsValid (drop_first fresh c) × (view (drop_first fresh c) ≡ xs)
  unfolding drop_first realloc
  drop_first-keeps fresh a c x xs h e =
      let (_, rest, n) = slice_uncons c.buf.cell c.top c.length x xs (h.same_run ∙ e) in
      elim (Bool-cases (ltb (new_seq_length (c.top + (c.length - 1))) c.buf_length)) [
        | inl smaller ↦
            rw (smaller, drop_first)
              (
                record { sized = refl; aimed = refl; fits = omega (arith, h.fits) },
                slice-realloc fresh c.buf (new_seq_length (c.top + (c.length - 1))) (c.top + 1)
                      (c.length - 1) (omega (arith, h.fits, h.sized))
                    ∙ rest,
              )
        | inr same ↦
            rw (same, drop_first)
              (record { sized = h.sized; aimed = refl; fits = omega (arith, h.fits) }, rest)
      ]

  array_shift_run :
      (false_object : A) (fresh : ℕ → A) (a c : FArray A) (x : A) {n : ℕ}
      → IsValid a
      → a.length ≡ suc n
      → a.buf.cell a.data_offset ≡ x
      → recenter a ≡ some c
      → array_shift false_object fresh a ≡ (ok x, drop_first fresh c)
  unfolding array_shift
  array_shift_run false_object fresh a c x v n first centred =
      ground (arith, load-in a.buf a.data_offset)

  -- From a valid array that holds `x` and then `xs`, `array_shift` returns `x` and leaves a valid
  -- array that holds `xs`.
  pub array_shift-Yields :
      (false_object : A) (fresh : ℕ → A) (a : FArray A) (x : A) (xs : List A)
      → IsValid a
      → view a ≡ x ∷ xs
      → Yields (array_shift false_object fresh a) x xs
  array_shift-Yields false_object fresh a x xs v e =
      let (c, centred, h) = recenter-Centred a v in
      let (valid, holds) = drop_first-keeps fresh a c x xs h e in
      let (first, _, n) = slice_uncons a.buf.cell a.data_offset a.length x xs e in
      subst (λ r. Yields r x xs) (sym (array_shift_run false_object fresh a c x v n first centred))
        (record { returns = refl; valid = valid; holds = holds })

  -- From an empty array it returns `#f` and changes nothing.
  pub array_shift-empty :
      (false_object : A) (fresh : ℕ → A) (a : FArray A)
      → a.length ≡ 0
      → array_shift false_object fresh a ≡ (ok false_object, a)
  unfolding array_shift
  array_shift-empty false_object fresh a e = ground arith
