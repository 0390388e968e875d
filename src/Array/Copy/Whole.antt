-- ===== src/Array/Copy/Whole.antt =====
-- Copies, maps and overwritten arrays hold what they should.
use fth.Base.{
  ℕ, zero, suc, ◌+◌, ◌-◌, ◌<◌, ◌≡◌, refl, sym, ap, ◌∙◌, ◌⊎◌, inl, inr, true, false, ◌==◌,
  Bool-cases, [], ◌∷◌, ◌++◌, map, reverse, arith, pos, ok, some, throw, out_of_range, length,
  replicate, length-map, ==_iff,
}
use mathlib.Core.Path.{subst, ap₂}
use mathlib.Core.List.{reverse-cons}
use fth.Memory.Slice.{slice, slice_ext, slice_const, slice_snoc, map-slice, length-slice}
use fth.Memory.Writes.{load-in}
use fth.Array.{FArray, view, make_array_instance, max_seq_length}
use fth.Array.Valid.{IsValid, Yields}
use fth.Array.Access.{make_filled}
use fth.Array.Access.Make.{
  Makes, Wraps, make_filled-Makes, make_array_instance-Wraps, fill_with-view, first_buf_length,
}
use fth.Array.Edit.{element_of}
use fth.Array.Copy.{map_option, ary_copy, array_map, array_reverse, array_fill}

module _ {ℓ} {A : Type ℓ} where
  -- A new array or list set from the elements of a valid one through `f` holds their images.
  mapped-Makes :
      (instance_of : FArray A → FArray A) (z : A) (f : A → A) (a : FArray A)
      → Wraps instance_of
      → IsValid a
      → Makes
          (make_filled instance_of z (pos a.length) (λ i. map_option f (element_of a i)))
          (map f (view a))
  mapped-Makes instance_of z f a w v =
      subst (Makes (make_filled instance_of z (pos a.length) (λ i. map_option f (element_of a i))))
        same
        (make_filled-Makes instance_of z a.length (λ i. map_option f (element_of a i))
          (λ k. f (a.buf.cell (a.data_offset + k))) w
          (λ k lt. ap (map_option f) (load-in a.buf (a.data_offset + k) (omega arith))))
    where
      same : slice (λ k. f (a.buf.cell (a.data_offset + k))) 0 a.length ≡ map f (view a)
      same =
          slice_ext (λ k. f (a.buf.cell (a.data_offset + k))) (λ k. f (a.buf.cell k)) 0
            a.data_offset a.length (λ k lt. ap (λ j. f (a.buf.cell j)) (omega arith))
          ∙ sym (map-slice f a.buf.cell a.data_offset a.length)

  -- `fth_array_copy` makes a valid array of the copies of the elements of a valid array, in order,
  -- or raises OUT-OF-RANGE where its buffer would be longer than the limit.
  pub ary_copy-Makes :
      (z : A) (copy : A → A) (a : FArray A)
      → IsValid a
      → Makes (ary_copy z copy a) (map copy (view a))
  unfolding ary_copy
  ary_copy-Makes z copy a v = mapped-Makes make_array_instance z copy a make_array_instance-Wraps v

  -- `fth_array_map` makes a valid array of the images of the elements of a valid array, in order,
  -- or raises OUT-OF-RANGE where its buffer would be longer than the limit.
  pub array_map-Makes :
      (z : A) (f : A → A) (a : FArray A) → IsValid a → Makes (array_map z f a) (map f (view a))
  unfolding array_map
  array_map-Makes z f a v = mapped-Makes make_array_instance z f a make_array_instance-Wraps v

  -- `array_fill` makes every element of a valid array its value and leaves it valid and as long.
  pub array_fill-Yields :
      (x : A) (a : FArray A) → IsValid a → Yields (array_fill x a) tt (replicate a.length x)
  unfolding array_fill
  array_fill-Yields x a v =
      let (b, run, v', holds) =
        fill_with-view (λ _. some x) (λ _. x) a.length a v refl (λ k lt. refl) in
      rw (run, array_fill)
        (record {
          returns = refl;
          valid = record { sized = v'.sized; aimed = v'.aimed; fits = v'.fits };
          holds = holds ∙ slice_const x 0 a.length;
        })

  slice-reverse :
      (f g : ℕ → A) (o n : ℕ)
      → ((k : ℕ) → k < n → g k ≡ f (o + (n - 1 - k)))
      → slice g 0 n ≡ reverse (slice f o n)
  slice-reverse f g o zero h = refl
  slice-reverse f g o (suc n) h =
      ap (slice g 0) {x = suc n} {y = n + 1} (omega arith)
      ∙ slice_snoc g 0 n
      ∙ ap₂ (λ xs x. xs ++ x ∷ [])
          (slice-reverse f g (suc o) n
            (λ k lt. h k (omega arith) ∙ ap f {y = suc o + (n - 1 - k)} (omega arith)))
          (ap g {x = 0 + n} {y = n} (omega arith) ∙ h n (omega arith) ∙ ap f {y = o} (omega arith))
      ∙ sym (reverse-cons (f o) (slice f (suc o) n))

  pub copies_length : (copy : A → A) (a : FArray A) → length (map copy (view a)) ≡ a.length
  copies_length copy a = length-map copy (view a) ∙ length-slice a.buf.cell a.data_offset a.length

  reverse_empty :
      (z : A) (copy : A → A) (a : FArray A)
      → IsValid a
      → (a.length == 0) ≡ true
      → Yields (array_reverse z copy a) tt (reverse (map copy (view a)))
  unfolding array_reverse
  reverse_empty z copy a v t =
      let none_held : view a ≡ [] = ap (slice a.buf.cell a.data_offset) ((==_iff a.length 0).0 t) in
      rw (t, array_reverse)
        (record {
          returns = refl;
          valid = v;
          holds = none_held ∙ sym (ap (λ l. reverse (map copy l)) none_held);
        })

  reverse_raises :
      (z : A) (copy : A → A) (a : FArray A)
      → (a.length == 0) ≡ false
      → ary_copy z copy a ≡ throw out_of_range
      → array_reverse z copy a ≡ (throw out_of_range, a)
  unfolding array_reverse
  reverse_raises z copy a t raised = rw (t, raised, array_reverse)

  reverse_filled :
      (z : A) (copy : A → A) (a tmp : FArray A)
      → IsValid a
      → IsValid tmp
      → (a.length == 0) ≡ false
      → ary_copy z copy a ≡ ok tmp
      → tmp.length ≡ a.length
      → view tmp ≡ map copy (view a)
      → Yields (array_reverse z copy a) tt (reverse (map copy (view a)))
  unfolding array_reverse
  reverse_filled z copy a tmp v v' t run len holds =
      let g = λ (k : ℕ). tmp.buf.cell (tmp.data_offset + (a.length - 1 - k)) in
      let (b, filled, valid, view_eq) =
        fill_with-view (λ i. element_of tmp (a.length - 1 - i)) g a.length a v refl
          (λ k lt. load-in tmp.buf (tmp.data_offset + (a.length - 1 - k)) (omega (arith, len))) in
      rw (t, run, filled, array_reverse)
        (record {
          returns = refl;
          valid = valid;
          holds =
              view_eq
              ∙ slice-reverse tmp.buf.cell g tmp.data_offset a.length (λ k lt. refl)
              ∙ ap (λ n. reverse (slice tmp.buf.cell tmp.data_offset n)) (sym len)
              ∙ ap reverse holds;
        })

  -- `array_reverse` leaves the copies of the elements in reversed order, or raises OUT-OF-RANGE
  -- where the buffer of a fresh copy would be too long, and leaves the array as it was.
  pub array_reverse-Yields :
      (z : A) (copy : A → A) (a : FArray A)
      → IsValid a
      → Yields (array_reverse z copy a) tt (reverse (map copy (view a)))
        ⊎ ((array_reverse z copy a ≡ (throw out_of_range, a))
            × (max_seq_length < first_buf_length a.length))
  array_reverse-Yields z copy a v = elim (Bool-cases (a.length == 0)) [
    | inl t ↦ inl (reverse_empty z copy a v t)
    | inr t ↦ elim (ary_copy-Makes z copy a v) [
      | inr (raised, long) ↦
          inr (reverse_raises z copy a t raised, omega (arith, long, copies_length copy a))
      | inl (tmp, run, v', holds) ↦
          let len : tmp.length ≡ a.length =
            sym (length-slice tmp.buf.cell tmp.data_offset tmp.length)
            ∙ ap length holds
            ∙ copies_length copy a in
          inl (reverse_filled z copy a tmp v v' t run len holds)
    ]
  ]
