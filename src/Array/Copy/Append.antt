-- ===== src/Array/Copy/Append.antt =====
-- fth_array_append joins two arrays, or an array and one more object, in a new array.
use fth.Base.{
  ℕ, ◌+◌, ◌-◌, ◌≤◌, ◌≡◌, refl, sym, ap, ◌∙◌, inl, inr, [], ◌∷◌, ◌++◌, arith, ok, some, length,
  length-append,
}
use mathlib.Core.Path.{ap₂}
use fth.Memory.{Block, update, store_each}
use fth.Memory.Slice.{slice, slice_ext, slice_from, slice-append, slice_snoc, length-slice}
use fth.Memory.Writes.{
  load-in, store-in, store_each-Filled, slice-Filled, slice-Filled_before, slice-update_outside,
  update_eq,
}
use fth.Array.{FArray, view}
use fth.Array.Valid.{IsValid}
use fth.Array.Access.{fill_with}
use fth.Array.Access.Make.{Makes}
use fth.Array.Access.Fresh.{Fresh, make_array_len-Fresh}
use fth.Array.Edit.{element_of}
use fth.Array.Copy.{append_from, array_append, array_append_single}

module _ {ℓ} {A : Type ℓ} (z : A) where
  -- After the first loop the new array begins with the elements of `a`.
  record Begun (a r f : FArray A) (n : ℕ) : Type ℓ where
    run : append_from z a r ≡ ok f
    valid : IsValid f
    len : f.length ≡ n
    start : slice f.buf.cell f.data_offset a.length ≡ view a

  append_from-Begun :
      (a r : FArray A) (n : ℕ)
      → IsValid a
      → Fresh z n r
      → a.length ≤ n
      → (f : FArray A) × Begun a r f n
  unfolding append_from fill_with
  append_from-Begun a r n v h le =
      let g = λ (k : ℕ). a.buf.cell (a.data_offset + k) in
      let (b, run, filled) =
        store_each-Filled (element_of a) g r.data_offset 0 a.length r.buf
          (λ k lt. load-in a.buf (a.data_offset + (0 + k)) (omega arith))
          (omega (arith, h.sized, h.aimed)) in
      (
        record r { buf = b },
        record {
          run = rw (run, append_from, fill_with);
          valid = record {
            sized = filled.same_size ∙ h.sized ∙ sym h.buf_length;
            aimed = h.aimed ∙ sym h.top;
            fits = omega (arith, h.top, h.len, h.buf_length);
          };
          len = h.len;
          start =
              ap (λ k. slice b.cell k a.length) {y = r.data_offset + 0} (omega arith)
              ∙ slice-Filled r.buf g r.data_offset 0 a.length b filled
              ∙ slice_from a.buf.cell a.data_offset a.length;
        },
      )

  -- The second loop goes on behind the elements of `a`.
  finish :
      (a b f : FArray A)
      → IsValid b
      → IsValid f
      → f.length ≡ a.length + b.length
      → slice f.buf.cell f.data_offset a.length ≡ view a
      → (c : Block A) × (store_each
            (λ i. element_of b (i - a.length))
            f.data_offset
            a.length
            b.length
            f.buf
          ≡ some c)
        × (c.size ≡ f.buf.size)
        × (slice c.cell f.data_offset f.length ≡ view a ++ view b)
  finish a b f w v len start =
      let g = λ (i : ℕ). b.buf.cell (b.data_offset + (i - a.length)) in
      let (c, run, filled) =
        store_each-Filled (λ i. element_of b (i - a.length)) g f.data_offset a.length b.length f.buf
          (λ k lt. load-in b.buf (b.data_offset + (a.length + k - a.length)) (omega arith))
          (omega (arith, len)) in
      (
        c,
        run,
        filled.same_size,
        ap (slice c.cell f.data_offset) len
            ∙ slice-append c.cell f.data_offset a.length b.length
            ∙ ap₂ ◌++◌
                (slice-Filled_before f.buf g f.data_offset a.length b.length c f.data_offset
                    a.length filled (omega arith)
                  ∙ start)
                (slice-Filled f.buf g f.data_offset a.length b.length c filled
                  ∙ slice_ext g b.buf.cell a.length b.data_offset b.length
                      (λ k lt. ap b.buf.cell {y = b.data_offset + k} (omega arith))),
      )

  total_length : (a b : FArray A) → length (view a ++ view b) ≡ a.length + b.length
  total_length a b = omega (
    arith,
    length-append (view a) (view b),
    length-slice a.buf.cell a.data_offset a.length,
    length-slice b.buf.cell b.data_offset b.length,
  )

  -- `fth_array_append` of two valid arrays makes a valid array of the elements of the one and then
  -- of the other, or raises OUT-OF-RANGE where its buffer would be longer than the limit.
  pub array_append-Makes :
      (a b : FArray A) → IsValid a → IsValid b → Makes (array_append z a b) (view a ++ view b)
  unfolding array_append
  array_append-Makes a b v w = elim (make_array_len-Fresh z (a.length + b.length)) [
    | inr (raised, long) ↦ inr (rw (raised, array_append), omega (arith, long, total_length a b))
    | inl (r, made, h) ↦
        let (f, begun) = append_from-Begun a r (a.length + b.length) v h (omega arith) in
        let (c, run, size, holds) = finish a b f w begun.valid begun.len begun.start in
        inl (
          record f { buf = c },
          rw (made, begun.run, run, array_append),
          record {
            sized = size ∙ begun.valid.sized;
            aimed = begun.valid.aimed;
            fits = begun.valid.fits;
          },
          holds,
        )
  ]

  -- `fth_array_append` of a valid array and an object that is none makes a valid array of its
  -- elements and then that object, or raises OUT-OF-RANGE where its buffer would be longer than the
  -- limit.
  pub array_append_single-Makes :
      (a : FArray A) (x : A) → IsValid a → Makes (array_append_single z a x) (view a ++ x ∷ [])
  unfolding array_append_single
  array_append_single-Makes a x v = elim (make_array_len-Fresh z (a.length + 1)) [
    | inr (raised, long) ↦ inr (
      rw (raised, array_append_single),
      omega (
        arith,
        long,
        length-append (view a) (x ∷ []),
        length-slice a.buf.cell a.data_offset a.length,
      ),
    )
    | inl (r, made, h) ↦
        let (f, begun) = append_from-Begun a r (a.length + 1) v h (omega arith) in
        let g = update f.buf.cell (f.data_offset + a.length) x in
        inl (
          record f { buf = record f.buf { cell = g } },
          rw (
            made,
            begun.run,
            store-in f.buf (f.data_offset + a.length) x (omega (arith, begun.valid, begun.len)),
            array_append_single,
          ),
          record { sized = begun.valid.sized; aimed = begun.valid.aimed; fits = begun.valid.fits },
          ap (slice g f.data_offset) begun.len
              ∙ slice_snoc g f.data_offset a.length
              ∙ ap₂ (λ xs y. xs ++ y ∷ [])
                  (slice-update_outside f.buf.cell (f.data_offset + a.length) x f.data_offset
                      a.length (inr (omega arith))
                    ∙ begun.start)
                  (update_eq f.buf.cell (f.data_offset + a.length) x (f.data_offset + a.length)
                    refl),
        )
  ]
