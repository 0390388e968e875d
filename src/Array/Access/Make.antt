-- ===== src/Array/Access/Make.antt =====
-- The makers of arrays give valid ones that hold what they should.
use fth.Base.{
  ℕ, ◌+◌, ◌/◌, ◌<◌, ◌≡◌, refl, sym, ap, ◌∙◌, ◌⊎◌, inl, inr, false, ltb, ltb→lt, Bool-cases, List,
  arith, pos, Option, some, Outcome, ok, throw, out_of_range, replicate, length, length-replicate,
  get_or, get_elem?-eq-get_or, get_elem?,
}
use mathlib.Core.Path.{subst, ap₂}
use fth.Memory.{calloc}
use fth.Memory.Slice.{slice, slice_const, slice-get_or, length-slice}
use fth.Memory.Writes.{store_each-Filled, slice-Filled}
use fth.Array.{
  FArray, view, max_seq_length, new_seq_length, make_array, make_array_instance, make_list_instance,
}
use fth.Array.Valid.{IsValid}
use fth.Array.Access.{fill_with, make_filled, make_array_var, make_array_with_init}

-- the buffer that `make_array` allots for `len` elements
abbrev pub first_buf_length : ℕ → ℕ
first_buf_length len = new_seq_length (len + new_seq_length len / 3)

module _ {ℓ} {A : Type ℓ} where
  -- The maker returns a valid array that holds `xs`, or raises OUT-OF-RANGE because the buffer
  -- would be longer than the limit.
  abbrev pub Makes : Outcome (FArray A) → List A → Type ℓ
  Makes r xs =
      ((a : FArray A) × (r ≡ ok a) × IsValid a × (view a ≡ xs))
      ⊎ ((r ≡ throw out_of_range) × (max_seq_length < first_buf_length (length xs)))

  pub make_array-Makes : (z : A) (len : ℕ) → Makes (make_array z (pos len)) (replicate len z)
  unfolding make_array calloc
  make_array-Makes z len = elim (Bool-cases (ltb max_seq_length (first_buf_length len))) [
    | inl long ↦ inr (rw (long, make_array), rw (length-replicate len z) (ltb→lt _ _ long))
    | inr fits ↦ inl (
      record {
        is_array = false;
        is_list = false;
        is_assoc = false;
        length = len;
        buf_length = first_buf_length len;
        top = new_seq_length len / 3;
        data_offset = new_seq_length len / 3;
        buf = record { size = first_buf_length len; cell = λ _. z };
        changed_p = false;
      },
      rw (fits, make_array),
      record { sized = refl; aimed = refl; fits = omega arith },
      slice_const z (new_seq_length len / 3) len,
    )
  ]

  -- A filling loop over all elements replaces them by its values.
  pub fill_with-view :
      (value : ℕ → Option A) (g : ℕ → A) (n : ℕ) (a : FArray A)
      → IsValid a
      → n ≡ a.length
      → ((k : ℕ) → k < n → value k ≡ some (g k))
      → (b : FArray A) × (fill_with value n a ≡ ok b) × IsValid b × (view b ≡ slice g 0 n)
  unfolding fill_with
  fill_with-view value g n a v e h =
      let (b, run, filled) =
        store_each-Filled value g a.data_offset 0 n a.buf
          (λ k lt. let z : 0 + k ≡ k = omega arith in rw z (h k lt)) (omega arith) in
      (
        record a { buf = b },
        rw (run, fill_with),
        record { sized = filled.same_size ∙ v.sized; aimed = v.aimed; fits = v.fits },
        ap₂ (slice b.cell) {y = a.data_offset + 0} (omega arith) (sym e)
            ∙ slice-Filled a.buf g a.data_offset 0 n b filled,
      )

  -- Wrapping a structure into its instance leaves its elements alone.
  pub record Wraps (instance_of : FArray A → FArray A) : Type ℓ where
    pub keeps_valid : (a : FArray A) → IsValid a → IsValid (instance_of a)
    pub keeps_view : (a : FArray A) → view (instance_of a) ≡ view a

  pub make_array_instance-Wraps : Wraps make_array_instance
  unfolding make_array_instance
  make_array_instance-Wraps = record {
    keeps_valid = λ a v. record { sized = v.sized; aimed = v.aimed; fits = v.fits };
    keeps_view = λ a. refl;
  }

  pub make_list_instance-Wraps : Wraps make_list_instance
  unfolding make_list_instance
  make_list_instance-Wraps = record {
    keeps_valid = λ a v. record { sized = v.sized; aimed = v.aimed; fits = v.fits };
    keeps_view = λ a. refl;
  }

  view-length : (a : FArray A) (n : ℕ) (z : A) → view a ≡ replicate n z → n ≡ a.length
  view-length a n z e =
      omega
        (arith, ap length e, length-replicate n z, length-slice a.buf.cell a.data_offset a.length)

  -- A new array of `n` elements holds the `n` values of the loop that sets them.
  pub make_filled-Makes :
      (instance_of : FArray A → FArray A) (z : A) (n : ℕ) (value : ℕ → Option A) (g : ℕ → A)
      → Wraps instance_of
      → ((k : ℕ) → k < n → value k ≡ some (g k))
      → Makes (make_filled instance_of z (pos n) value) (slice g 0 n)
  unfolding make_filled
  make_filled-Makes instance_of z n value g w h = elim (make_array-Makes z n) [
    | inr (run, long) ↦ inr (
      rw (run, make_filled),
      let e = length-replicate n z in let e' = length-slice g 0 n in rw e' (rw e at long),
    )
    | inl (a, run, v, holds) ↦
        let len = view-length a n z holds in
        let (b, filled, v', holds') =
          fill_with-view value g a.length a v refl (λ k lt. h k (omega (arith, len))) in
        inl (
          instance_of b,
          rw (run, filled, make_filled),
          w.keeps_valid b v',
          w.keeps_view b ∙ holds' ∙ ap (slice g 0) (sym len),
        )
  ]

  -- `fth_make_array_var` makes a valid array of its arguments, in order, or raises OUT-OF-RANGE
  -- where its buffer would be longer than the limit.
  pub make_array_var-Makes : (z : A) (args : List A) → Makes (make_array_var z args) args
  unfolding make_array_var
  make_array_var-Makes z args =
      subst (λ xs. Makes (make_array_var z args) xs) (slice-get_or args z)
        (make_filled-Makes make_array_instance z (length args) (get_elem? args)
          (λ k. get_or args k z) make_array_instance-Wraps
          (λ k lt. get_elem?-eq-get_or args k z lt))

  -- `fth_make_array_with_init` makes a valid array of `len` times `init`, or raises OUT-OF-RANGE
  -- where its buffer would be longer than the limit.
  pub make_array_with_init-Makes :
      (z : A) (len : ℕ) (init : A)
      → Makes (make_array_with_init z (pos len) init) (replicate len init)
  unfolding make_array_with_init
  make_array_with_init-Makes z len init =
      subst (λ xs. Makes (make_array_with_init z (pos len) init) xs) (slice_const init 0 len)
        (make_filled-Makes make_array_instance z len (λ _. some init) (λ _. init)
          make_array_instance-Wraps (λ k lt. refl))
