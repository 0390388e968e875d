-- ===== src/Assoc/Search.antt =====
-- The binary search of assoc_index of src/array.c.
use fth.Base.{
  ℕ, zero, suc, ◌+◌, ◌-◌, ◌/◌, ◌==◌, ==_iff, ◌≤◌, ◌<◌, ◌≡◌, ◌≢◌, refl, sym, ap, ◌⊎◌, inl, inr,
  false, ltb, ltb→lt, ltb_false→le, Bool-cases, ℤ, pos, negsuc, List, [], ◌∷◌, some, Outcome, ok,
  arith,
}
use fth.Memory.Slice.{slice}
use fth.Memory.Writes.{load-in}
use fth.Array.{FArray, view}
use fth.Array.Valid.{IsValid}
use fth.Assoc.{Element, id_of, search, assoc_index}

greater : (id m n : ℕ) → n ≡ id → ltb id m ≡ false → (id == m) ≡ false → m < n
greater id m n e f g = ground arith

module _ {ℓ} {A : Type ℓ} (hash_id : A → ℕ) (false_object : A) where
  -- Every element of the list has a greater id than `n`.
  abbrev pub Above : ℕ → List (Element A) → Type 0
  Above n [] = Unit
  Above n (e ∷ rest) = (n < id_of hash_id false_object e) × Above n rest

  -- The ids go up from each element to the next.
  abbrev pub Sorted : List (Element A) → Type 0
  Sorted [] = Unit
  Sorted (e ∷ rest) = Above (id_of hash_id false_object e) rest × Sorted rest

  -- the id of the element at `k`
  abbrev pub id_at : FArray (Element A) → ℕ → ℕ
  id_at a k = id_of hash_id false_object (a.buf.cell (a.data_offset + k))

  Above-slice :
      (f : ℕ → Element A) (o n m k : ℕ)
      → Above m (slice f o n)
      → k < n
      → m < id_of hash_id false_object (f (o + k))
  Above-slice f o zero m k h lt = absurd (omega arith)
  Above-slice f o (suc n) m zero (here, rest) lt =
      let e : o + 0 ≡ o = omega arith in
      omega (arith, here, ap (λ j. id_of hash_id false_object (f j)) e)
  Above-slice f o (suc n) m (suc k) (here, rest) lt =
      let e : o + suc k ≡ suc o + k = omega arith in
      omega (
        arith,
        Above-slice f (suc o) n m k rest (omega arith),
        ap (λ j. id_of hash_id false_object (f j)) e,
      )

  pub Sorted-slice :
      (f : ℕ → Element A) (o n j k : ℕ)
      → Sorted (slice f o n)
      → j < k
      → k < n
      → id_of hash_id false_object (f (o + j)) < id_of hash_id false_object (f (o + k))
  Sorted-slice f o zero j k s lt below = absurd (omega arith)
  Sorted-slice f o (suc n) j zero s lt below = absurd (omega arith)
  Sorted-slice f o (suc n) zero (suc k) (above, rest) lt below =
      let e : o + suc k ≡ suc o + k = omega arith in
      let z : o + 0 ≡ o = omega arith in
      omega (
        arith,
        Above-slice f (suc o) n (id_of hash_id false_object (f o)) k above (omega arith),
        ap (λ i. id_of hash_id false_object (f i)) e,
        ap (λ i. id_of hash_id false_object (f i)) z,
      )
  Sorted-slice f o (suc n) (suc j) (suc k) (above, rest) lt below =
      let e : o + suc k ≡ suc o + k = omega arith in
      let z : o + suc j ≡ suc o + j = omega arith in
      omega (
        arith,
        Sorted-slice f (suc o) n j k rest (omega arith) (omega arith),
        ap (λ i. id_of hash_id false_object (f i)) e,
        ap (λ i. id_of hash_id false_object (f i)) z,
      )

  -- A smaller id stands further to the left.
  left_of :
      (a : FArray (Element A)) (j i : ℕ)
      → Sorted (view a)
      → j < a.length
      → id_at a j < id_at a i
      → j < i
  left_of a j i s lt less = elim (Bool-cases (ltb j i)) [
    | inl t ↦ ltb→lt j i t
    | inr f ↦ elim (Bool-cases (i == j)) [
      | inl same ↦ absurd (omega (arith, less, ap (id_at a) ((==_iff i j).0 same)))
      | inr apart ↦
          let beyond : i < j = ground arith in
          absurd
            (omega (arith, less, Sorted-slice a.buf.cell a.data_offset a.length i j s beyond lt))
    ]
  ]

  -- What a search gives: the index of the element with the id, or that there is none.
  abbrev pub Found : FArray (Element A) → ℕ → Outcome ℤ → Type 0
  Found a id r =
      ((i : ℕ) × (r ≡ ok (pos i)) × (i < a.length) × (id_at a i ≡ id))
      ⊎ ((r ≡ ok (negsuc 0)) × ((j : ℕ) → j < a.length → id_at a j ≢ id))

  search-Found :
      (fuel beg stop id : ℕ) (a : FArray (Element A))
      → IsValid a
      → Sorted (view a)
      → stop - beg < fuel
      → stop ≤ a.length
      → ((j : ℕ) → j < a.length → id_at a j ≡ id → (beg ≤ j) × (j < stop))
      → Found a id (search hash_id false_object fuel beg stop id a)
  unfolding search
  search-Found zero beg stop id a v s enough within between = absurd (omega arith)
  search-Found (suc fuel) beg stop id a v s enough within between =
      elim (Bool-cases (ltb beg stop)) [
        | inr f ↦
            rw (f, search)
              (inr (
                refl,
                λ j lt e. let b = between j lt e in absurd (omega (arith, b, ltb_false→le _ _ f)),
              ))
        | inl t ↦
            let i = (beg + (stop - 1)) / 2 in
            let low : beg ≤ i = omega (arith, ltb→lt _ _ t) in
            let high : i < stop = omega (arith, ltb→lt _ _ t) in
            let loaded =
              load-in a.buf (a.data_offset + i)
                (omega (arith, v.sized, v.aimed, v.fits, high, within)) in
            elim (Bool-cases (id == id_at a i)) [
              | inl same ↦
                  rw (t, loaded, same, search)
                    (inl (i, refl, omega (arith, high, within), sym ((==_iff _ _).0 same)))
              | inr differs ↦ elim (Bool-cases (ltb id (id_at a i))) [
                | inl less ↦
                    rw (t, loaded, differs, less, search)
                      (search-Found fuel beg i id a v s (omega (arith, enough, low, high))
                        (omega (arith, high, within))
                        (λ j lt e. (
                          (between j lt e).0,
                          left_of a j i s lt (omega (arith, e, ltb→lt _ _ less)),
                        )))
                | inr more ↦
                    rw (t, loaded, differs, more, search)
                      (search-Found fuel (i + 1) stop id a v s (omega (arith, enough, low, high))
                        within
                        (λ j lt e. (
                          omega (
                            arith,
                            left_of a i j s (omega (arith, high, within))
                                (greater id (id_at a i) (id_at a j) e more differs),
                          ),
                          (between j lt e).1,
                        )))
              ]
            ]
      ]

  -- `assoc_index` of a valid array that is sorted by ids gives the index of an element whose id is that
  -- of the key, or -1 where no element has that id.
  pub assoc_index-Found :
      (key : A) (a : FArray (Element A))
      → IsValid a
      → Sorted (view a)
      → Found a (hash_id key) (assoc_index hash_id false_object key (some a))
  unfolding assoc_index
  assoc_index-Found key a v s = elim (Bool-cases (a.length == 0)) [
    | inl t ↦
        rw (t, assoc_index)
          (inr (refl, λ j lt. absurd (omega (arith, lt, (==_iff a.length 0).0 t))))
    | inr f ↦
        rw (f, assoc_index)
          (search-Found (a.length + 1) 0 a.length (hash_id key) a v s (omega arith) (omega arith)
            (λ j lt e. (omega arith, lt)))
  ]
