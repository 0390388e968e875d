-- ===== src/Cons/Slice/Kept.antt =====
-- The elements whose index list-slice and list-slice! keep, in front of the slice and behind it.
use fth.Base.{
  ℕ, zero, suc, ◌+◌, ◌-◌, ◌≤◌, ◌≡◌, refl, ap, Bool, true, false, if◌then◌else◌, List, [], ◌∷◌, ◌++◌,
  take, drop, arith,
}
use fth.Cons.Slice.{outside_p}

module _ {ℓ} {A : Type ℓ} where
  -- the elements whose index is kept, where the first of the list has the index `i`
  abbrev pub kept : (ℕ → Bool) → ℕ → List A → List A
  kept keep i [] = []
  kept keep i (x ∷ xs) = if keep i then x ∷ kept keep (i + 1) xs else kept keep (i + 1) xs

  kept-drop :
      (idx end n i : ℕ) (xs : List A)
      → idx ≤ i
      → n ≡ end - i
      → kept (outside_p idx end) i xs ≡ drop n xs
  kept-drop idx end zero i [] le e = refl
  kept-drop idx end (suc n) i [] le e = refl
  kept-drop idx end zero i (x ∷ xs) le e =
      let t : outside_p idx end i ≡ true = ground (arith, le, e) in
      rw t
        (ap (λ l. x ∷ l) (kept-drop idx end zero (i + 1) xs (omega (arith, le)) (omega (arith, e))))
  kept-drop idx end (suc n) i (x ∷ xs) le e =
      let f : outside_p idx end i ≡ false = ground (arith, le, e) in
      rw f (kept-drop idx end n (i + 1) xs (omega (arith, le)) (omega (arith, e)))

  pub kept-take :
      (idx end n i : ℕ) (xs : List A)
      → n + i ≡ idx
      → kept (outside_p idx end) i xs ≡ take n xs ++ drop (n + (end - idx)) xs
  kept-take idx end zero i xs e =
      kept-drop idx end (0 + (end - idx)) i xs (omega (arith, e)) (omega (arith, e))
  kept-take idx end (suc n) i [] e =
      let s : suc n + (end - idx) ≡ suc (n + (end - idx)) = omega arith in rw s refl
  kept-take idx end (suc n) i (x ∷ xs) e =
      let t : outside_p idx end i ≡ true = ground (arith, e) in
      let s : suc n + (end - idx) ≡ suc (n + (end - idx)) = omega arith in
      rw (t, s) (ap (λ l. x ∷ l) (kept-take idx end n (i + 1) xs (omega (arith, e))))
