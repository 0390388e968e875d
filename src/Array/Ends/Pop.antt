-- ===== src/Array/Ends/Pop.antt =====
-- fth_array_pop removes the last element and returns it.
use fth.Base.{
  ℕ, suc, ◌+◌, ◌-◌, ◌≡◌, refl, sym, ap, ◌∙◌, true, List, [], ◌∷◌, ◌++◌, arith, ok, length,
  length-append,
}
use mathlib.Core.Path.{subst, ap₂}
use fth.Memory.Slice.{slice, slice_snoc, length-slice}
use fth.Memory.Writes.{load-in}
use fth.Array.{FArray, view, shrink}
use fth.Array.Valid.{IsValid, Yields, shrink-Shrunk}
use fth.Array.Ends.{array_pop}

pub snoc_injective {ℓ} :
    {A : Type ℓ} (xs ys : List A) (x y : A) → xs ++ x ∷ [] ≡ ys ++ y ∷ [] → (xs ≡ ys) × (x ≡ y)
snoc_injective [] [] x y e = (refl, cc)
snoc_injective [] (b ∷ ys) x y e = absurd (omega (arith, ap length e, length-append ys (y ∷ [])))
snoc_injective (a ∷ xs) [] x y e = absurd (omega (arith, ap length e, length-append xs (x ∷ [])))
snoc_injective (a ∷ xs) (b ∷ ys) x y e =
    let rest = snoc_injective xs ys x y (cc) in (ap₂ ◌∷◌ (cc) rest.0, rest.1)

module _ {ℓ} {A : Type ℓ} (false_object : A) (fresh : ℕ → A) where
  popped : FArray A → FArray A
  popped a = record (shrink fresh (record a { length = a.length - 1 })) { changed_p = true }

  array_pop_run :
      (a : FArray A) (n : ℕ)
      → IsValid a
      → a.length ≡ suc n
      → array_pop false_object fresh a ≡ (ok (a.buf.cell (a.data_offset + n)), popped a)
  unfolding array_pop popped
  array_pop_run a n v e = ground (arith, load-in a.buf (a.data_offset + n))

  popped-keeps :
      (a : FArray A) (n : ℕ)
      → IsValid a
      → a.length ≡ suc n
      → IsValid (popped a) × (view (popped a) ≡ slice a.buf.cell a.data_offset n)
  unfolding popped
  popped-keeps a n v e =
      let s =
        shrink-Shrunk fresh (record a { length = a.length - 1 })
          (record { sized = v.sized; aimed = v.aimed; fits = omega arith }) (omega arith) in
      let c = shrink fresh (record a { length = a.length - 1 }) in
      (
        record { sized = s.valid.sized; aimed = s.valid.aimed; fits = s.valid.fits },
        ap (slice c.buf.cell c.data_offset) (omega (arith, s.same_length)) ∙ s.kept n (omega arith),
      )

  -- From a valid array that holds `xs` and then `x`, `array_pop` returns `x` and leaves a valid
  -- array that holds `xs`.
  pub array_pop-Yields :
      (a : FArray A) (xs : List A) (x : A)
      → IsValid a
      → view a ≡ xs ++ x ∷ []
      → Yields (array_pop false_object fresh a) x xs
  array_pop-Yields a xs x v e =
      let n = length xs in
      let len : a.length ≡ suc n = omega (
        arith,
        ap length e,
        length-slice a.buf.cell a.data_offset a.length,
        length-append xs (x ∷ []),
      ) in
      let (same, last) =
        snoc_injective (slice a.buf.cell a.data_offset n) xs (a.buf.cell (a.data_offset + n)) x (
          sym (slice_snoc a.buf.cell a.data_offset n)
          ∙ ap (slice a.buf.cell a.data_offset) (omega arith)
          ∙ e) in
      subst (λ r. Yields r x xs) (sym (array_pop_run a n v len))
        (record {
          returns = ap ok last;
          valid = (popped-keeps a n v len).0;
          holds = (popped-keeps a n v len).1 ∙ same;
        })

  -- From an empty array it returns `#f` and changes nothing.
  pub array_pop-empty :
      (a : FArray A) → a.length ≡ 0 → array_pop false_object fresh a ≡ (ok false_object, a)
  unfolding array_pop
  array_pop-empty a e = ground arith
