-- ===== src/Cons/Slice/Moved.antt =====
-- The loop of list-slice!, which moves the kept elements to the front.
use fth.Base.{
  ℕ, zero, suc, ◌+◌, ◌≤◌, ◌≡◌, refl, sym, ap, ◌∙◌, inl, inr, Bool, Bool-cases, List, [], ◌∷◌, ◌++◌,
  Outcome, ok, arith,
}
use mathlib.Core.List.{append_assoc, append-nil}
use mathlib.Core.Path.{ap₂}
use fth.Memory.{Block, update}
use fth.Memory.Slice.{slice, slice_snoc}
use fth.Memory.Writes.{load-in, store-in, update_eq, slice-update_outside}
use fth.Array.{FArray, view}
use fth.Array.Valid.{IsValid}
use fth.Cons.Slice.Kept.{kept}
use fth.Cons.Slice.{move_outside}

module _ {ℓ} {A : Type ℓ} where
  -- What the loop leaves: the first `j` elements are those kept before, and then the kept ones of the
  -- rest.
  abbrev pub Moves : Outcome (ℕ × FArray A) → FArray A → List A → Type ℓ
  Moves r a xs =
      (j : ℕ) × (b : Block A) × (r ≡ ok (j, record a { buf = b }))
      × (b.size ≡ a.buf.size)
      × (j ≤ a.length)
      × (slice b.cell a.data_offset j ≡ xs)

  move_outside-Moves :
      (keep : ℕ → Bool) (i n j : ℕ) (a : FArray A)
      → a.data_offset + a.length ≤ a.buf.size
      → i + n ≡ a.length
      → j ≤ i
      → Moves
          (move_outside keep i n j a)
          a
          (slice a.buf.cell a.data_offset j ++ kept keep i (slice a.buf.cell (a.data_offset + i) n))
  unfolding move_outside
  move_outside-Moves keep i zero j a fits e le =
      (j, a.buf, refl, refl, omega (arith, e, le), sym (append-nil _))
  move_outside-Moves keep i (suc n) j a fits e le = elim (Bool-cases (keep i)) [
    | inr f ↦
        let (j', b, run, size, le', holds) =
          move_outside-Moves keep (i + 1) n j a fits (omega (arith, e)) (omega (arith, le)) in
        (
          j',
          b,
          rw (f, move_outside) run,
          size,
          le',
          holds
              ∙ ap (λ l. slice a.buf.cell a.data_offset j ++ l)
                  (ap (λ k. kept keep (i + 1) (slice a.buf.cell k n)) (shift a.data_offset i)
                    ∙ sym (rw f refl)),
        )
    | inl t ↦
        let x = a.buf.cell (a.data_offset + i) in
        let c : Block A = record a.buf { cell = update a.buf.cell (a.data_offset + j) x } in
        let (j', b, run, size, le', holds) =
          move_outside-Moves keep (i + 1) n (j + 1) (record a { buf = c }) fits (omega (arith, e))
            (omega (arith, le)) in
        (
          j',
          b,
          rw
              (
                t,
                load-in a.buf (a.data_offset + i) (omega (arith, e, fits)),
                store-in a.buf (a.data_offset + j) x (omega (arith, e, le, fits)),
                move_outside,
              )
              run,
          size,
          le',
          holds
              ∙ ap (λ l. l ++ kept keep (i + 1) (slice c.cell (a.data_offset + (i + 1)) n))
                  (slice_snoc c.cell a.data_offset j
                    ∙ ap₂ (λ l y. l ++ y ∷ [])
                        (slice-update_outside a.buf.cell (a.data_offset + j) x a.data_offset j
                          (inr (omega arith)))
                        (update_eq a.buf.cell (a.data_offset + j) x (a.data_offset + j) refl))
              ∙ append_assoc (slice a.buf.cell a.data_offset j) (x ∷ []) _
              ∙ ap (λ l. slice a.buf.cell a.data_offset j ++ l)
                  (ap (λ l. x ∷ kept keep (i + 1) l)
                      (slice-update_outside a.buf.cell (a.data_offset + j) x
                          (a.data_offset + (i + 1)) n (inl (omega (arith, le)))
                        ∙ ap (λ k. slice a.buf.cell k n) (shift a.data_offset i))
                    ∙ sym (rw t refl)),
        )
  ]
    where
      shift : (o k : ℕ) → o + (k + 1) ≡ suc (o + k)
      shift o k = omega arith

  pub move_outside-kept :
      (keep : ℕ → Bool) (a : FArray A)
      → IsValid a
      → Moves (move_outside keep 0 a.length 0 a) a (kept keep 0 (view a))
  move_outside-kept keep a v =
      let (j, b, run, size, le, holds) =
        move_outside-Moves keep 0 a.length 0 a (omega (arith, v.sized, v.aimed, v.fits))
          (omega arith) (omega arith) in
      (
        j,
        b,
        run,
        size,
        le,
        holds
            ∙ ap (λ k. kept keep 0 (slice a.buf.cell k a.length)) {x = a.data_offset + 0}
                (omega arith),
      )
