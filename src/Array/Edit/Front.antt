-- ===== src/Array/Edit/Front.antt =====
-- fth_array_insert at the first position: the loop of fth_array_unshift over the argument.
use fth.Base.{
  ℕ, zero, suc, ◌+◌, ◌≤◌, ◌<◌, ◌≡◌, refl, sym, ap, ◌∙◌, inl, inr, List, [], ◌∷◌, ◌++◌, arith,
  Option, ok, some, throw, out_of_range, length, length-append, drop, drop-append, drop-length,
}
use mathlib.Core.Path.{subst}
use mathlib.Core.List.{append_assoc}
use fth.Memory.Slice.{slice, length-slice, slice_snoc}
use fth.Memory.Writes.{load-in}
use fth.Array.{FArray, Method, view}
use fth.Array.Valid.{IsValid, Yields}
use fth.Array.Ends.{array_unshift}
use fth.Array.Ends.Unshift.{array_unshift-Yields}
use fth.Array.Edit.{elements, element_of, unshift_each, insert_front}

module _ {ℓ} {A : Type ℓ} where
  -- The loop ran to its end, or OUT-OF-RANGE stopped it after it had put the last few of `xs` before
  -- the elements `old`: those stay.
  pub data Prepends (r : Method A (Unit {0})) (xs old : List A) : Type ℓ where
    whole : Yields r tt (xs ++ old) → Prepends r xs old
    partly :
        (k : ℕ)
        → r.0 ≡ throw out_of_range
        → IsValid r.1
        → 0 < k
        → k ≤ length xs
        → view r.1 ≡ drop k xs ++ old
        → Prepends r xs old

  -- one round of the loop
  pub step_ok :
      (source : FArray A → ℕ → Option A) (fresh : ℕ → A) (i : ℕ) (a : FArray A) (x : A)
      → source a i ≡ some x
      → (array_unshift fresh x a).0 ≡ ok tt
      → unshift_each source fresh (suc i) a
        ≡ unshift_each source fresh i (array_unshift fresh x a).1
  unfolding unshift_each
  step_ok source fresh i a x e f = rw (e, f, unshift_each)

  pub step_throw :
      (source : FArray A → ℕ → Option A) (fresh : ℕ → A) (i : ℕ) (a : FArray A) (x : A)
      → source a i ≡ some x
      → array_unshift fresh x a ≡ (throw out_of_range, a)
      → unshift_each source fresh (suc i) a ≡ (throw out_of_range, a)
  unfolding unshift_each
  step_throw source fresh i a x e f =
      rw (e, ap (λ (r : Method A (Unit {0})). r.0) f, unshift_each)
        (ap (λ (b : FArray A). (throw out_of_range, b)) (ap (λ (r : Method A (Unit {0})). r.1) f))

  pub done :
      (source : FArray A → ℕ → Option A) (fresh : ℕ → A) (a : FArray A)
      → unshift_each source fresh 0 a ≡ (ok tt, a)
  unfolding unshift_each
  done source fresh a = refl

  Prepends-snoc :
      (r : Method A (Unit {0})) (xs old : List A) (x : A)
      → Prepends r xs (x ∷ old)
      → Prepends r (xs ++ x ∷ []) old
  Prepends-snoc r xs old x (whole y) =
      whole (subst (λ l. Yields r tt l) (sym (append_assoc xs (x ∷ []) old)) y)
  Prepends-snoc r xs old x (partly k raised v some_left le e) =
      partly k raised v some_left (omega (arith, length-append xs (x ∷ []))) (
        e
        ∙ sym (append_assoc (drop k xs) (x ∷ []) old)
        ∙ ap (λ l. l ++ old) (sym (drop-append k xs (x ∷ []) le)))

  Prepends-stopped :
      (a : FArray A) (xs old : List A) (n : ℕ)
      → IsValid a
      → view a ≡ old
      → length xs ≡ suc n
      → Prepends (throw out_of_range, a) xs old
  Prepends-stopped a xs old n v e l =
      partly (length xs) refl v (omega arith) (omega arith)
        (e ∙ ap (λ l. l ++ old) (sym (drop-length xs)))

  -- Reading from another array, the loop puts its first `n` elements in order before the old ones.
  unshift_each-Prepends :
      (fresh : ℕ → A) (f : ℕ → A) (o n : ℕ) (source : FArray A → ℕ → Option A) (a : FArray A)
      → IsValid a
      → ((b : FArray A) (k : ℕ) → k < n → source b k ≡ some (f (o + k)))
      → Prepends (unshift_each source fresh n a) (slice f o n) (view a)
  unshift_each-Prepends fresh f o zero source a v h = whole (
      subst (λ r. Yields r tt (view a)) (sym (done source fresh a))
        (record { returns = refl; valid = v; holds = refl }))
  unshift_each-Prepends fresh f o (suc n) source a v h =
      elim (array_unshift-Yields fresh (f (o + n)) a v) [
        | inr (raised, _, _) ↦
            subst (λ r. Prepends r (slice f o (suc n)) (view a))
              (sym (step_throw source fresh n a (f (o + n)) (h a n (omega arith)) raised))
              (Prepends-stopped a (slice f o (suc n)) (view a) n v refl (length-slice f o (suc n)))
        | inl y ↦
            let snoc : slice f o n ++ f (o + n) ∷ [] ≡ slice f o (suc n) =
              sym (slice_snoc f o n) ∙ ap (slice f o) {y = suc n} (omega arith) in
            let b = (array_unshift fresh (f (o + n)) a).1 in
            let rest =
              unshift_each-Prepends fresh f o n source b y.valid (λ c k lt. h c k (omega arith)) in
            subst (λ xs. Prepends (unshift_each source fresh (suc n) a) xs (view a)) snoc
              (subst (λ r. Prepends r (slice f o n ++ f (o + n) ∷ []) (view a))
                (sym (step_ok source fresh n a (f (o + n)) (h a n (omega arith)) y.returns))
                (Prepends-snoc _ (slice f o n) (view a) (f (o + n))
                  (subst (Prepends (unshift_each source fresh n b) (slice f o n)) y.holds rest)))
      ]

  -- `array_insert` of another array at the first position of a valid array puts its elements in
  -- order before those that were there. If OUT-OF-RANGE stops it, the elements that it had got to stay: it is not
  -- undone.
  pub insert_front-Prepends :
      (fresh : ℕ → A) (b a : FArray A)
      → IsValid a
      → IsValid b
      → Prepends (insert_front fresh (elements b) a) (view b) (view a)
  unfolding insert_front
  insert_front-Prepends fresh b a v w =
      unshift_each-Prepends fresh b.buf.cell b.data_offset b.length (λ _. element_of b) a v
        (λ _ k lt. load-in b.buf (b.data_offset + k) (omega arith))
