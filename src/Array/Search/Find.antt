-- ===== src/Array/Search/Find.antt =====
-- The searches find the first element that passes the test.
use fth.Base.{
  ℕ, zero, suc, ◌+◌, ◌≤◌, ◌<◌, ◌≡◌, refl, sym, ap, ◌∙◌, ◌⊎◌, inl, inr, Bool, true, false,
  Bool-cases, List, [], ◌∷◌, ◌++◌, arith, if◌then◌else◌, pos, negsuc, Option, ok, some, none,
  length, length-append, lt→ltb,
}
use mathlib.Core.Path.{subst}
use fth.Memory.Slice.{slice, length-slice}
use fth.Memory.Writes.{load-in}
use fth.Array.{FArray, view}
use fth.Array.Valid.{IsValid, Yields}
use fth.Array.Access.Index.{position}
use fth.Array.Edit.Delete.{array_delete-Yields}
use fth.Array.Search.{scan, array_index, array_delete_key}

pub pos_position : (i j len : ℕ) → i ≡ j → j < len → position (pos i) len ≡ some j
pos_position i j len e lt = rw (lt→ltb i len (omega arith)) (ap some e)

module _ {ℓ} {A : Type ℓ} where
  -- the first element that passes, with its index, counted from `i`
  unfoldable pub first_hit : (A → Bool) → ℕ → List A → Option (ℕ × A)
  first_hit test i [] = none
  first_hit test i (x ∷ xs) = if test x then some (i, x) else first_hit test (suc i) xs

  pub scan-first_hit :
      (test : A → Bool) (a : FArray A) (i n : ℕ)
      → i + n ≤ a.length
      → IsValid a
      → scan test a i n ≡ ok (first_hit test i (slice a.buf.cell (a.data_offset + i) n))
  unfolding scan first_hit
  scan-first_hit test a i zero le v = refl
  scan-first_hit test a i (suc n) le v =
      let at_i = load-in a.buf (a.data_offset + i) (omega arith) in
      let rest : scan test a (suc i) n
          ≡ ok (first_hit test (suc i) (slice a.buf.cell (suc (a.data_offset + i)) n)) =
        scan-first_hit test a (suc i) n (omega arith) v
        ∙ ap (λ k. ok (first_hit test (suc i) (slice a.buf.cell k n))) (omega arith) in
      elim (Bool-cases (test (a.buf.cell (a.data_offset + i)))) [
        | inl t ↦ rw (at_i, scan, t)
        | inr f ↦ rw (at_i, scan, f) rest
      ]

  pub scan_all :
      (test : A → Bool) (a : FArray A)
      → IsValid a
      → scan test a 0 a.length ≡ ok (first_hit test 0 (view a))
  scan_all test a v =
      scan-first_hit test a 0 a.length (omega arith) v
      ∙ ap (λ k. ok (first_hit test 0 (slice a.buf.cell k a.length))) (omega arith)

  -- no element passes
  abbrev pub NoneOf : (A → Bool) → List A → Type 0
  NoneOf test [] = Unit
  NoneOf test (x ∷ xs) = (test x ≡ false) × NoneOf test xs

  -- The list is `ys`, none of which passes, then `x`, which does, then others; or none passes.
  abbrev pub Search : (A → Bool) → ℕ → List A → Option (ℕ × A) → Type ℓ
  Search test i xs o =
      ((ys : List A) × (x : A) × (zs : List A) × (xs ≡ ys ++ x ∷ zs)
        × NoneOf test ys
        × (test x ≡ true)
        × (o ≡ some (i + length ys, x)))
      ⊎ (NoneOf test xs × (o ≡ none))

  first_hit_step :
      (test : A → Bool) (i : ℕ) (x : A) (xs : List A) (o : Option (ℕ × A))
      → test x ≡ false
      → Search test (suc i) xs o
      → Search test i (x ∷ xs) o
  first_hit_step test i x xs o f (inl (ys, y, zs, e, before, t, h)) =
      inl
        (x ∷ ys, y, zs, ap (λ l. x ∷ l) e, (f, before), t, h ∙ ap (λ k. some (k, y)) (omega arith))
  first_hit_step test i x xs o f (inr (nowhere, h)) = inr ((f, nowhere), h)

  first_hit_eqs :
      (test : A → Bool) (i : ℕ) (x : A) (xs : List A)
      → (test x ≡ true → first_hit test i (x ∷ xs) ≡ some (i, x))
        × (test x ≡ false → first_hit test i (x ∷ xs) ≡ first_hit test (suc i) xs)
  unfolding first_hit
  first_hit_eqs test i x xs = (λ t. rw t, λ f. rw f)

  first_hit-none : (test : A → Bool) (i : ℕ) → first_hit test i [] ≡ none
  unfolding first_hit
  first_hit-none test i = refl

  pub first_hit-Search :
      (test : A → Bool) (i : ℕ) (xs : List A) → Search test i xs (first_hit test i xs)
  first_hit-Search test i [] = inr (tt, first_hit-none test i)
  first_hit-Search test i (x ∷ xs) = elim (Bool-cases (test x)) [
    | inl t ↦ inl (
      [],
      x,
      xs,
      refl,
      tt,
      t,
      (first_hit_eqs test i x xs).0 t ∙ ap (λ k. some (k, x)) (omega arith),
    )
    | inr f ↦ subst (Search test i (x ∷ xs)) (sym ((first_hit_eqs test i x xs).1 f)) (
        first_hit_step test i x xs (first_hit test (suc i) xs) f (first_hit-Search test (suc i) xs))
  ]

  -- What a loop over a valid array finds.
  pub scan-Search :
      (test : A → Bool) (a : FArray A)
      → IsValid a
      → (o : Option (ℕ × A)) × (scan test a 0 a.length ≡ ok o) × Search test 0 (view a) o
  scan-Search test a v =
      (first_hit test 0 (view a), scan_all test a v, first_hit-Search test 0 (view a))

  -- `array_index` gives the index of the first element of a valid array that is equal to the key, or
  -- -1 where none is.
  pub array_index-first :
      (equal : A → A → Bool) (key : A) (a : FArray A)
      → IsValid a
      → ((ys : List A) × (x : A) × (zs : List A) × (view a ≡ ys ++ x ∷ zs)
          × NoneOf (λ y. equal y key) ys
          × (equal x key ≡ true)
          × (array_index equal key a ≡ ok (pos (length ys))))
        ⊎ (NoneOf (λ y. equal y key) (view a) × (array_index equal key a ≡ ok (negsuc 0)))
  unfolding array_index
  array_index-first equal key a v =
      let (o, run, found) = scan-Search (λ y. equal y key) a v in index_of o run found
    where
      index_of :
          (o : Option (ℕ × A))
          → scan (λ y. equal y key) a 0 a.length ≡ ok o
          → Search (λ y. equal y key) 0 (view a) o
          → ((ys : List A) × (x : A) × (zs : List A) × (view a ≡ ys ++ x ∷ zs)
              × NoneOf (λ y. equal y key) ys
              × (equal x key ≡ true)
              × (array_index equal key a ≡ ok (pos (length ys))))
            ⊎ (NoneOf (λ y. equal y key) (view a) × (array_index equal key a ≡ ok (negsuc 0)))
      index_of o run (inl (ys, x, zs, e, before, t, h)) =
          inl
            (ys, x, zs, e, before, t, rw (run, h, array_index) (ap (λ k. ok (pos k)) (omega arith)))
      index_of o run (inr (nowhere, h)) = inr (nowhere, rw (run, h, array_index))

  delete_hit :
      (false_object : A) (fresh : ℕ → A) (equal : A → A → Bool) (key : A) (a : FArray A)
      (ys zs : List A) (x : A)
      → IsValid a
      → view a ≡ ys ++ x ∷ zs
      → scan (λ y. equal y key) a 0 a.length ≡ ok (some (0 + length ys, x))
      → Yields (array_delete_key false_object fresh equal key a) x (ys ++ zs)
  unfolding array_delete_key
  delete_hit false_object fresh equal key a ys zs x v e run =
      let size : a.length ≡ length ys + suc (length zs) =
        sym (length-slice a.buf.cell a.data_offset a.length)
        ∙ ap length e
        ∙ length-append ys (x ∷ zs) in
      rw (run, array_delete_key)
        (array_delete-Yields false_object fresh (pos (0 + length ys)) a ys zs x v e
          (pos_position (0 + length ys) (length ys) a.length (omega arith) (omega (arith, size))))

  delete_miss :
      (false_object : A) (fresh : ℕ → A) (equal : A → A → Bool) (key : A) (a : FArray A)
      → scan (λ y. equal y key) a 0 a.length ≡ ok none
      → array_delete_key false_object fresh equal key a ≡ (ok false_object, a)
  unfolding array_delete_key
  delete_miss false_object fresh equal key a run = rw (run, array_delete_key)

  -- `array_delete_key` takes the first element equal to the key out of a valid array and returns it,
  -- and where none is it returns `#f` and changes nothing.
  pub array_delete_key-first :
      (false_object : A) (fresh : ℕ → A) (equal : A → A → Bool) (key : A) (a : FArray A)
      → IsValid a
      → ((ys : List A) × (x : A) × (zs : List A) × (view a ≡ ys ++ x ∷ zs)
          × NoneOf (λ y. equal y key) ys
          × (equal x key ≡ true)
          × Yields (array_delete_key false_object fresh equal key a) x (ys ++ zs))
        ⊎ (NoneOf (λ y. equal y key) (view a)
            × (array_delete_key false_object fresh equal key a ≡ (ok false_object, a)))
  array_delete_key-first false_object fresh equal key a v =
      let (o, run, found) = scan-Search (λ y. equal y key) a v in
      elim found [
        | inl (ys, x, zs, e, before, t, h) ↦ inl (
          ys,
          x,
          zs,
          e,
          before,
          t,
          delete_hit false_object fresh equal key a ys zs x v e (run ∙ ap ok h),
        )
        | inr (nowhere, h) ↦
            inr (nowhere, delete_miss false_object fresh equal key a (run ∙ ap ok h))
      ]
