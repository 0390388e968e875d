-- ===== src/Simple/Search.antt =====
-- simple_array_index, simple_array_rindex and simple_array_member_p against the places in the list of
-- the elements.
use fth.Base.{
  ℕ, zero, suc, ◌+◌, ◌≤◌, ◌≡◌, refl, sym, ap, ◌∙◌, inl, inr, Bool, true, false, ltb, if◌then◌else◌,
  List, [], ◌∷◌, ◌++◌, Bool-cases, Option, none, some, ok, arith, length,
}
use mathlib.Core.Path.{ap₂}
use fth.Memory.{Block}
use fth.Memory.Slice.{slice, slice_snoc, length-slice}
use fth.Simple.{
  SimpleArray, view, items, index_from, simple_array_index, rindex_from, simple_array_rindex,
  simple_array_member_p,
}
use fth.Simple.Valid.{IsValid, block_there, cell_at-some, length-view}

-- one place further
abbrev pub later : Option ℕ → Option ℕ
later none = none
later (some i) = some (suc i)

module _ {ℓ} {A : Type ℓ} (same : A → A → Bool) (obj : A) where
  -- the first place of `obj`
  abbrev pub first_place : List A → Option ℕ
  first_place [] = none
  first_place (x ∷ xs) = let rest = first_place xs in if same x obj then some 0 else later rest

  -- the last place of `obj`
  abbrev pub last_place : List A → Option ℕ
  last_place [] = none
  last_place (x ∷ xs) =
      let rest = last_place xs in
      elim rest [ none ↦ if same x obj then some 0 else none | some i ↦ some (suc i) ]

  abbrev shifted : ℕ → Option ℕ → Option ℕ
  shifted i none = none
  shifted i (some k) = some (i + k)

  shifted-later : (i : ℕ) (o : Option ℕ) → shifted (suc i) o ≡ shifted i (later o)
  shifted-later i none = refl
  shifted-later i (some k) = ap (λ n. some n) (omega arith)

  index_from-first_place :
      (a : SimpleArray A) (b : Block A) (i n : ℕ)
      → a.cells ≡ some b
      → i + n ≤ b.size
      → index_from same obj a i n ≡ ok (shifted i (first_place (slice b.cell i n)))
  unfolding index_from
  index_from-first_place a b i zero e le = refl
  index_from-first_place a b i (suc n) e le =
      let here = cell_at-some a b i e (omega (arith, le)) in
      let rest = index_from-first_place a b (suc i) n e (omega (arith, le)) in
      elim (Bool-cases (same (b.cell i) obj)) [
        | inl t ↦ rw (here, t, index_from) (ap (λ k. ok (some k)) {y = i + 0} (omega arith))
        | inr f ↦
            rw (here, f, rest, index_from)
              (ap (λ o. ok o) (shifted-later i (first_place (slice b.cell (suc i) n))))
      ]

  unshifted : (o : Option ℕ) → shifted 0 o ≡ o
  unshifted none = refl
  unshifted (some k) = ap (λ n. some n) (omega arith)

  none_there : (a : SimpleArray A) → IsValid a → ltb 0 a.length ≡ false → view a ≡ []
  none_there a v f = empty (view a) (ground (arith, length-view a v, f))
    where
      empty : (xs : List A) → length xs ≡ 0 → xs ≡ []
      empty [] e = refl
      empty (x ∷ xs) e = absurd (omega (arith, e))

  -- `simple_array_index` of a valid array gives the first place of the pointer.
  pub simple_array_index-first_place :
      (a : SimpleArray A) → IsValid a → simple_array_index same obj a ≡ ok (first_place (view a))
  unfolding simple_array_index
  simple_array_index-first_place a v = elim (Bool-cases (ltb 0 a.length)) [
    | inr f ↦ rw (f, simple_array_index) (ap (λ l. ok (first_place l)) (sym (none_there a v f)))
    | inl t ↦
        let (b, there, room) = block_there a v (ground (arith, t)) in
        let run = index_from-first_place a b 0 a.length there (omega (arith, room)) in
        rw (t, run, simple_array_index)
          (ap (λ o. ok o) (unshifted (first_place (slice b.cell 0 a.length)))
            ∙ ap (λ c. ok (first_place (items c a.length))) (sym there))
  ]

  last_snoc :
      (xs : List A) (x : A)
      → last_place (xs ++ x ∷ []) ≡ (if same x obj then some (length xs) else last_place xs)
  last_snoc [] x = refl
  last_snoc (y ∷ xs) x = rw (last_snoc xs x) (branch (same x obj))
    where
      branch :
          (t : Bool)
          → elim (if t then some (length xs) else last_place xs) [
            | none ↦ if same y obj then some 0 else none
            | some i ↦ some (suc i)
          ]
            ≡ (if t then some (suc (length xs)) else elim (last_place xs) [
              | none ↦ if same y obj then some 0 else none
              | some i ↦ some (suc i)
            ])
      branch true = refl
      branch false = refl

  rindex_from-last_place :
      (a : SimpleArray A) (b : Block A) (n : ℕ)
      → a.cells ≡ some b
      → n ≤ b.size
      → rindex_from same obj a n ≡ ok (last_place (slice b.cell 0 n))
  unfolding rindex_from
  rindex_from-last_place a b zero e le = refl
  rindex_from-last_place a b (suc n) e le =
      let here = cell_at-some a b n e (omega (arith, le)) in
      let rest = rindex_from-last_place a b n e (omega (arith, le)) in
      let cells : last_place (slice b.cell 0 (suc n))
          ≡ (if same (b.cell n) obj then some n else last_place (slice b.cell 0 n)) =
        ap (λ k. last_place (slice b.cell 0 k)) {x = suc n} {y = n + 1} (omega arith)
        ∙ ap last_place (slice_snoc b.cell 0 n)
        ∙ last_snoc (slice b.cell 0 n) (b.cell (0 + n))
        ∙ ap₂ (λ i k. if same (b.cell i) obj then some k else last_place (slice b.cell 0 n)) {y = n}
            {v = n} (omega arith) (length-slice b.cell 0 n) in
      elim (Bool-cases (same (b.cell n) obj)) [
        | inl t ↦
            rw (here, t, rindex_from)
              (sym (
                ap (λ o. ok o)
                  (cells ∙ ap (λ x. if x then some n else last_place (slice b.cell 0 n)) t)))
        | inr f ↦
            rw (here, f, rest, rindex_from)
              (sym (
                ap (λ o. ok o)
                  (cells ∙ ap (λ x. if x then some n else last_place (slice b.cell 0 n)) f)))
      ]

  -- `simple_array_rindex` of a valid array gives the last place of the pointer.
  pub simple_array_rindex-last_place :
      (a : SimpleArray A) → IsValid a → simple_array_rindex same obj a ≡ ok (last_place (view a))
  unfolding simple_array_rindex
  simple_array_rindex-last_place a v = elim (Bool-cases (ltb 0 a.length)) [
    | inr f ↦ rw (f, simple_array_rindex) (ap (λ l. ok (last_place l)) (sym (none_there a v f)))
    | inl t ↦
        let (b, there, room) = block_there a v (ground (arith, t)) in
        let run = rindex_from-last_place a b a.length there (omega (arith, room)) in
        rw (t, run, simple_array_rindex) (ap (λ c. ok (last_place (items c a.length))) (sym there))
  ]

  -- some element is the pointer
  abbrev pub occurs : List A → Bool
  occurs [] = false
  occurs (x ∷ xs) = let rest = occurs xs in if same x obj then true else rest

  abbrev found : Option ℕ → Bool
  found none = false
  found (some i) = true

  occurs-first_place : (xs : List A) → found (first_place xs) ≡ occurs xs
  occurs-first_place [] = refl
  occurs-first_place (x ∷ xs) = elim (Bool-cases (same x obj)) [
    | inl t ↦ rw t refl
    | inr f ↦ rw f (after (first_place xs) ∙ occurs-first_place xs)
  ]
    where
      after : (o : Option ℕ) → found (later o) ≡ found o
      after none = refl
      after (some i) = refl

  -- `simple_array_member_p` of a valid array says whether some element is the pointer.
  pub simple_array_member_p-occurs :
      (a : SimpleArray A) → IsValid a → simple_array_member_p same obj a ≡ ok (occurs (view a))
  unfolding simple_array_member_p
  simple_array_member_p-occurs a v =
      let run = simple_array_index-first_place a v in
      rw (run, simple_array_member_p)
        (said (first_place (view a)) ∙ ap (λ b. ok b) (occurs-first_place (view a)))
    where
      said : (o : Option ℕ) → elim o [ none ↦ ok false | some i ↦ ok true ] ≡ ok (found o)
      said none = refl
      said (some i) = refl
