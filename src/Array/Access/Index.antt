-- ===== src/Array/Access/Index.antt =====
-- An index counts from the front, or from the back where it is negative, and nothing else is
-- accepted.
use fth.Base.{
  ℕ, suc, ◌+◌, ◌-◌, ◌<◌, ◌≡◌, refl, sym, ◌⊎◌, inl, inr, ltb, if◌then◌else◌, ℤ, pos, negsuc, List,
  Option, none, some, arith, Outcome, ok, throw, out_of_range, get_elem?, length, set, true,
}
use mathlib.Core.Path.{subst}
use fth.Memory.{update}
use fth.Memory.Slice.{length-slice, get_elem?-slice}
use fth.Memory.Writes.{load-in, store-in, slice-update_at}
use fth.Array.{FArray, view}
use fth.Array.Valid.{IsValid, Yields}
use fth.Array.Access.{in_range, from_end, ary_ref, ary_set, array_ref, array_set}

-- the position that an index means in a sequence of `len` elements
abbrev pub position : ℤ → ℕ → Option ℕ
position (pos i) len = if ltb i len then some i else none
position (negsuc k) len = if ltb k len then some (len - suc k) else none

pub in_range-from_end : (idx : ℤ) (len : ℕ) → in_range (from_end idx len) len ≡ position idx len
unfolding in_range from_end
in_range-from_end (pos i) len = refl
in_range-from_end (negsuc k) len = ground arith

pub position-lt : (idx : ℤ) (len i : ℕ) → position idx len ≡ some i → i < len
position-lt (pos j) len i e = ground arith
position-lt (negsuc k) len i e = ground arith

-- the element that an index means, or OUT-OF-RANGE
abbrev pub element {ℓ} : {A : Type ℓ} → Option A → Outcome A
element none = throw out_of_range
element (some x) = ok x

abbrev pub elem_at {ℓ} : {A : Type ℓ} → List A → Option ℕ → Option A
elem_at xs none = none
elem_at xs (some i) = get_elem? xs i

module _ {ℓ} {A : Type ℓ} where
  ref_at :
      (a : FArray A) (o : Option ℕ)
      → IsValid a
      → ((i : ℕ) → o ≡ some i → i < a.length)
      → (idx : ℤ) → in_range idx a.length ≡ o
      → ary_ref idx a ≡ element (elem_at (view a) o)
  unfolding ary_ref
  ref_at a none v lt idx e = rw (e, ary_ref)
  ref_at a (some i) v lt idx e =
      let h = lt i refl in
      rw (
        e,
        ary_ref,
        load-in a.buf (a.data_offset + i) (omega arith),
        get_elem?-slice a.buf.cell a.data_offset a.length i h,
      )

  -- `array_ref` gives the element of a valid array at the position that the index means, counted
  -- from the end where it is negative, and raises OUT-OF-RANGE exactly where there is none.
  pub array_ref-view :
      (idx : ℤ) (a : FArray A)
      → IsValid a
      → array_ref idx a ≡ element (elem_at (view a) (position idx (length (view a))))
  unfolding array_ref
  array_ref-view idx a v = rw (length-slice a.buf.cell a.data_offset a.length) (
      ref_at a (position idx a.length) v (position-lt idx a.length) (from_end idx a.length)
        (in_range-from_end idx a.length))

  set_run :
      (a : FArray A) (i : ℕ) (x : A) (idx : ℤ)
      → IsValid a
      → i < a.length
      → in_range idx a.length ≡ some i
      → ary_set idx x a ≡ (
        ok x,
        record a {
          buf = record a.buf { cell = update a.buf.cell (a.data_offset + i) x };
          changed_p = true;
        },
      )
  unfolding ary_set
  set_run a i x idx v lt e = rw (e, ary_set, store-in a.buf (a.data_offset + i) x (omega arith))

  set_at :
      (a : FArray A) (x : A) (o : Option ℕ)
      → IsValid a
      → ((i : ℕ) → o ≡ some i → i < a.length)
      → (idx : ℤ) → in_range idx a.length ≡ o
      → ((i : ℕ) × (o ≡ some i) × Yields (ary_set idx x a) x (set (view a) i x))
        ⊎ ((o ≡ none) × (ary_set idx x a ≡ (throw out_of_range, a)))
  unfolding ary_set
  set_at a x none v lt idx e = inr (refl, rw (e, ary_set))
  set_at a x (some i) v lt idx e =
      let yields : Yields (ary_set idx x a) x (set (view a) i x) =
        subst (λ r. Yields r x (set (view a) i x)) (sym (set_run a i x idx v (lt i refl) e))
          (record {
            returns = refl;
            valid = record { sized = v.sized; aimed = v.aimed; fits = v.fits };
            holds =
                slice-update_at a.buf.cell x a.data_offset a.length i (a.data_offset + i)
                  (lt i refl) refl;
          }) in
      inl (i, refl, yields)

  -- On a valid array `array_set` stores and returns its value at the position that the index means, leaving all
  -- other elements as they were; without such a position it raises OUT-OF-RANGE and changes
  -- nothing.
  pub array_set-Yields :
      (idx : ℤ) (x : A) (a : FArray A)
      → IsValid a
      → ((i : ℕ) × (position idx a.length ≡ some i)
          × Yields (array_set idx x a) x (set (view a) i x))
        ⊎ ((position idx a.length ≡ none) × (array_set idx x a ≡ (throw out_of_range, a)))
  unfolding array_set
  array_set-Yields idx x a v =
      set_at a x (position idx a.length) v (position-lt idx a.length) (from_end idx a.length)
        (in_range-from_end idx a.length)
