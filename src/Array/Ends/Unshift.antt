-- ===== src/Array/Ends/Unshift.antt =====
-- fth_array_unshift prepends, or raises OUT-OF-RANGE and leaves the array as it was.
use fth.Base.{
  ℕ, suc, ◌+◌, ◌-◌, ◌/◌, ◌≤◌, ◌≡◌, refl, sym, ap, ◌∙◌, ◌⊎◌, inl, inr, true, false, List, ◌∷◌, arith,
  ltb, ltb_false→le, Bool-cases, ok,
}
use mathlib.Core.Path.{subst, ap₂}
use fth.Memory.{update, moved}
use fth.Memory.Slice.{slice}
use fth.Memory.Writes.{store-in, memmove-in, slice-update_outside, slice-moved_inside, update_eq}
use fth.Array.{FArray, view}
use fth.Array.Valid.{IsValid, Yields, Refuses, reserve-Reserved}
use fth.Array.Ends.{store_first, unshift_moved, array_unshift}

module _ {ℓ} {A : Type ℓ} where
  -- The run of `a.length` cells behind `new_top` becomes the tail.
  store_first-Yields :
      (v : A) (new_top : ℕ) (a : FArray A) (xs : List A)
      → a.buf.size ≡ a.buf_length
      → new_top + (a.length + 1) ≤ a.buf_length
      → slice a.buf.cell (suc new_top) a.length ≡ xs
      → Yields (store_first v new_top a) tt (v ∷ xs)
  unfolding store_first
  store_first-Yields v new_top a xs sized fits tail =
      subst (λ r. Yields r tt (v ∷ xs)) (sym run)
        (record {
          returns = refl;
          valid = record { sized = sized; aimed = refl; fits = fits };
          holds = holds;
        })
    where
      b : FArray A
      b = record a {
        top = new_top;
        length = a.length + 1;
        data_offset = new_top;
        buf = record a.buf { cell = update a.buf.cell new_top v };
        changed_p = true;
      }

      run : store_first v new_top a ≡ (ok tt, b)
      run = rw (store-in a.buf new_top v (omega arith), store_first)

      holds : view b ≡ v ∷ xs
      holds =
          ap (slice (update a.buf.cell new_top v) new_top) {y = suc a.length} (omega arith)
          ∙ ap₂ ◌∷◌ (update_eq a.buf.cell new_top v new_top refl) (
              slice-update_outside a.buf.cell new_top v (suc new_top) a.length (inl (omega arith))
              ∙ tail)

  unshift_moved-Yields :
      (v : A) (new_top : ℕ) (a : FArray A) (xs : List A)
      → IsValid a
      → new_top + (a.length + 1) ≤ a.buf_length
      → view a ≡ xs
      → Yields (unshift_moved v new_top a) tt (v ∷ xs)
  unfolding unshift_moved store_first
  unshift_moved-Yields v new_top a xs h fits e =
      subst (λ r. Yields r tt (v ∷ xs)) (sym run)
        (store_first-Yields v new_top b xs h.sized fits (shifted ∙ e))
    where
      f : ℕ → A
      f = moved a.buf.cell a.buf.cell (new_top + 1) a.data_offset a.length

      b : FArray A
      b = record a { buf = record a.buf { cell = f } }

      run : unshift_moved v new_top a ≡ store_first v new_top b
      run = rw (
        memmove-in a.buf (new_top + 1) a.buf a.data_offset a.length (omega arith) (omega arith),
        unshift_moved,
      )

      shifted : slice f (suc new_top) a.length ≡ view a
      shifted =
          ap (λ k. slice f k a.length) {y = new_top + 1} (omega arith)
          ∙ slice-moved_inside a.buf.cell a.buf.cell (new_top + 1) a.data_offset a.length

  -- no room in front
  pub moved_case :
      (fresh : ℕ → A) (v : A) (a : FArray A)
      → IsValid a
      → ltb (a.top - 1) 1 ≡ true
      → Yields (array_unshift fresh v a) tt (v ∷ view a)
        ⊎ Refuses (array_unshift fresh v a) a (a.buf_length / 3 + (a.length + 1))
  unfolding array_unshift unshift_moved store_first
  moved_case fresh v a h t = elim (reserve-Reserved fresh (a.buf_length / 3 + (a.length + 1)) a h) [
    | inl (b, run, r) ↦ inl (
        subst (λ m. Yields m tt (v ∷ view a)) (sym (rw (t, run, array_unshift)))
          (unshift_moved-Yields v (a.buf_length / 3) b (view a) r.valid
            (omega (arith, r.room, r.same_length)) r.same_view))
    | inr (run, short, long) ↦ inr (rw (t, run, array_unshift), short, long)
  ]

  -- room in front: the buffer is never short
  pub plain_case :
      (fresh : ℕ → A) (v : A) (a : FArray A)
      → IsValid a
      → ltb (a.top - 1) 1 ≡ false
      → Yields (array_unshift fresh v a) tt (v ∷ view a)
  unfolding array_unshift unshift_moved store_first
  plain_case fresh v a h t = elim (reserve-Reserved fresh (a.top - 1 + (a.length + 1)) a h) [
    | inl (b, run, r) ↦
        subst (λ m. Yields m tt (v ∷ view a)) (sym (rw (t, run, array_unshift)))
          (store_first-Yields v (a.top - 1) b (view a) r.valid.sized
            (omega (arith, r.room, r.same_length))
            (ap (λ k. slice b.buf.cell k b.length) {y = b.data_offset}
                (omega (arith, r.valid.aimed, r.same_top, ltb_false→le _ _ t))
              ∙ r.same_view))
    | inr (run, short, long) ↦ absurd (omega (arith, short, ltb_false→le _ _ t))
  ]

  -- `array_unshift` puts its value before the elements of a valid array and leaves it valid, or
  -- else raises OUT-OF-RANGE and leaves the array as it was; this only where the elements have to
  -- move and the grown buffer would be longer than the limit.
  pub array_unshift-Yields :
      (fresh : ℕ → A) (v : A) (a : FArray A)
      → IsValid a
      → Yields (array_unshift fresh v a) tt (v ∷ view a)
        ⊎ Refuses (array_unshift fresh v a) a (a.buf_length / 3 + (a.length + 1))
  array_unshift-Yields fresh v a h = elim (Bool-cases (ltb (a.top - 1) 1)) [
    | inl t ↦ moved_case fresh v a h t
    | inr t ↦ inl (plain_case fresh v a h t)
  ]
