-- ===== src/Array/Ends/Push.antt =====
-- fth_array_push appends, or raises OUT-OF-RANGE and leaves the array as it was.
use fth.Base.{
  ℕ, ◌+◌, ◌≤◌, ◌<◌, ◌≡◌, refl, sym, ◌∙◌, ◌⊎◌, inl, inr, true, [], ◌∷◌, ◌++◌, arith, ok, List,
  le→ltb_false,
}
use mathlib.Core.Path.{subst, ap₂}
use fth.Memory.{update}
use fth.Memory.Slice.{slice_snoc}
use fth.Memory.Writes.{store-in, slice-update_outside, update_eq}
use fth.Array.{FArray, Method, view}
use fth.Array.Valid.{IsValid, Yields, Refuses, Reserved, reserve-Reserved, reserve_enough}
use fth.Array.Ends.{store_last, array_push}

module _ {ℓ} {A : Type ℓ} where
  stored_last : A → FArray A → FArray A
  stored_last v a = record a {
    buf = record a.buf { cell = update a.buf.cell (a.data_offset + a.length) v };
    length = a.length + 1;
    changed_p = true;
  }

  store_last_run :
      (v : A) (a : FArray A)
      → IsValid a
      → a.top + a.length < a.buf_length
      → store_last v a ≡ (ok tt, stored_last v a)
  unfolding store_last stored_last
  store_last_run v a h lt =
      rw (store-in a.buf (a.data_offset + a.length) v (omega arith), store_last)

  view-stored_last : (v : A) (a : FArray A) → view (stored_last v a) ≡ view a ++ v ∷ []
  unfolding stored_last
  view-stored_last v a =
      let f = update a.buf.cell (a.data_offset + a.length) v in
      slice_snoc f a.data_offset a.length
      ∙ ap₂ (λ xs x. xs ++ x ∷ [])
          (slice-update_outside a.buf.cell (a.data_offset + a.length) v a.data_offset a.length
            (inr (omega arith)))
          (update_eq a.buf.cell (a.data_offset + a.length) v (a.data_offset + a.length) refl)

  store_last-Yields :
      (v : A) (a : FArray A)
      → IsValid a
      → a.top + a.length < a.buf_length
      → Yields (store_last v a) tt (view a ++ v ∷ [])
  unfolding stored_last
  store_last-Yields v a h lt =
      subst (λ r. Yields r tt (view a ++ v ∷ [])) (sym (store_last_run v a h lt))
        (record {
          returns = refl;
          valid = record { sized = h.sized; aimed = h.aimed; fits = omega arith };
          holds = view-stored_last v a;
        })

  grown-Yields :
      (v : A) (a b : FArray A)
      → Reserved a (a.top + (a.length + 1)) b
      → Yields (store_last v b) tt (view a ++ v ∷ [])
  grown-Yields v a b r =
      subst (λ xs. Yields (store_last v b) tt (xs ++ v ∷ [])) r.same_view
        (store_last-Yields v b r.valid (omega (arith, r.room, r.same_top, r.same_length)))

  -- `array_push` appends its value to a valid array and leaves it valid, or else raises
  -- OUT-OF-RANGE and leaves the array as it was; this only where the grown buffer would be longer
  -- than the limit.
  pub array_push-Yields :
      (fresh : ℕ → A) (v : A) (a : FArray A)
      → IsValid a
      → Yields (array_push fresh v a) tt (view a ++ v ∷ [])
        ⊎ Refuses (array_push fresh v a) a (a.top + (a.length + 1))
  unfolding array_push store_last
  array_push-Yields fresh v a h = elim (reserve-Reserved fresh (a.top + (a.length + 1)) a h) [
    | inl (b, run, r) ↦ inl (
        subst (λ m. Yields m tt (view a ++ v ∷ [])) (sym (rw (run, array_push)))
          (grown-Yields v a b r))
    | inr (run, short, long) ↦ inr (rw (run, array_push), short, long)
  ]

  pub array_push-top :
      (fresh : ℕ → A) (v : A) (a : FArray A) → IsValid a → (array_push fresh v a).1.top ≡ a.top
  unfolding array_push stored_last
  array_push-top fresh v a h = elim (reserve-Reserved fresh (a.top + (a.length + 1)) a h) [
    | inl (b, run, r) ↦
        rw
          (
            run,
            store_last_run v b r.valid (omega (arith, r.room, r.same_top, r.same_length)),
            array_push,
          )
          r.same_top
    | inr (run, short, long) ↦ rw (run, array_push) refl
  ]

  -- Where the buffer has room, `array_push` stays within it.
  pub record Added {κ} {B : Type κ} (a : FArray A) (r : Method A B) (b : B) (xs : List A)
      : Type (ℓ ⊔ κ) where
    pub yields : Yields r b xs
    pub same_top : r.1.top ≡ a.top
    pub same_buf_length : r.1.buf_length ≡ a.buf_length
    pub grows : r.1.length ≤ a.length + 1

  push_roomy :
      (fresh : ℕ → A) (v : A) (a : FArray A)
      → a.top + a.length < a.buf_length
      → array_push fresh v a ≡ store_last v a
  unfolding array_push
  push_roomy fresh v a lt =
      rw (
        reserve_enough fresh (a.top + (a.length + 1)) a (le→ltb_false _ _ (omega arith)),
        array_push,
      )

  pub array_push-Added :
      (fresh : ℕ → A) (v : A) (a : FArray A)
      → IsValid a
      → a.top + a.length < a.buf_length
      → Added a (array_push fresh v a) tt (view a ++ v ∷ [])
  unfolding stored_last
  array_push-Added fresh v a h lt =
      subst (λ r. Added a r tt (view a ++ v ∷ []))
        (sym (push_roomy fresh v a lt ∙ store_last_run v a h lt))
        (record {
          yields = record {
            returns = refl;
            valid = record { sized = h.sized; aimed = h.aimed; fits = omega arith };
            holds = view-stored_last v a;
          };
          same_top = refl;
          same_buf_length = refl;
          grows = omega arith;
        })
