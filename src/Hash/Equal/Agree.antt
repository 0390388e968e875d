-- ===== src/Hash/Equal/Agree.antt =====
-- What hs_equal_p of src/hash.c decides.
use fth.Base.{
  ℕ, zero, suc, ◌+◌, ◌%◌, ◌≤◌, ◌<◌, ◌≡◌, ◌≢◌, refl, sym, ap, ◌∙◌, ◌⊎◌, inl, inr, Bool, true, false,
  ◌&&◌, ◌==◌, ==_iff, Bool-cases, if◌then◌else◌, List, [], ◌∷◌, ◌++◌, Option, none, some, ok, arith,
}
use fth.Memory.{load}
use fth.Memory.Writes.{load-in}
use fth.Hash.{Keys, FItem, FHash, hash_key_to_val}
use fth.Hash.Chain.{Lawful, Good, value_of, value_of-equal}
use fth.Hash.Valid.{IsValid, lookup}
use fth.Hash.Lookup.{hash_find-lookup}
use fth.Hash.Entries.{flat, entries, Apart, entries-Lists}
use fth.Hash.Equal.{equal_in, equal_from, hash_equal_p}

and_assoc : (p q r : Bool) → (p && (q && r)) ≡ ((p && q) && r)
and_assoc true q r = refl
and_assoc false q r = refl

and_left : (p q : Bool) → (p && q) ≡ true → p ≡ true
and_left true q h = refl
and_left false q h = h

and_right : (p q : Bool) → (p && q) ≡ true → q ≡ true
and_right true q h = h
and_right false q h = cc

both : (p q : Bool) → (if p then ok q else ok false) ≡ ok (p && q)
both true q = refl
both false q = refl

module _ {ℓ} {A : Type ℓ} (K : Keys A) where
  -- The second hash has an equal value where the first has one.
  abbrev pub alike : Option A → Option A → Bool
  alike none o = true
  alike (some x) none = false
  alike (some x) (some y) = K.equal x y

  abbrev agrees : FHash A → List (FItem A) → Bool
  agrees obj [] = true
  agrees obj (e ∷ rest) = alike (some e.value) (lookup K obj e.key) && agrees obj rest

  agrees-append :
      (obj : FHash A) (xs ys : List (FItem A))
      → agrees obj (xs ++ ys) ≡ (agrees obj xs && agrees obj ys)
  agrees-append obj [] ys = refl
  agrees-append obj (x ∷ xs) ys =
      rw (agrees-append obj xs ys)
        (and_assoc (alike (some x.value) (lookup K obj x.key)) (agrees obj xs) (agrees obj ys))

  equal_in-agrees :
      (obj : FHash A) (n i : ℕ) (c : List (FItem A))
      → IsValid K obj
      → Good K n i c
      → equal_in K obj c ≡ ok (agrees obj c)
  unfolding equal_in
  equal_in-agrees obj n i [] v good = refl
  equal_in-agrees obj n i (e ∷ c) v (is, at, apart, rest) = elim (hash_find-lookup K e.key obj v) [
    | inr (run, missing) ↦ rw (is, run, missing, equal_in)
    | inl (found, value, run, its_key, looks) ↦ elim (Bool-cases (K.equal e.value value)) [
      | inl t ↦ rw (is, run, looks, t, equal_in) (equal_in-agrees obj n i c v rest)
      | inr f ↦ rw (is, run, looks, f, equal_in)
    ]
  ]

  equal_from_step :
      (i n : ℕ) (self obj : FHash A) (b : Bool)
      → load self.buckets i ≡ some (self.buckets.cell i)
      → equal_in K obj (self.buckets.cell i) ≡ ok b
      → equal_from K i (suc n) self obj ≡ (if b then equal_from K (suc i) n self obj else ok false)
  unfolding equal_from
  equal_from_step i n self obj true e run = rw (e, run, equal_from)
  equal_from_step i n self obj false e run = rw (e, run, equal_from)

  from_zero : (i : ℕ) (self obj : FHash A) → equal_from K i 0 self obj ≡ ok true
  unfolding equal_from
  from_zero i self obj = refl

  equal_from-agrees :
      (i n : ℕ) (self obj : FHash A)
      → IsValid K obj
      → i + n ≤ self.buckets.size
      → ((j : ℕ) → j < i + n → Good K self.hash_size j (self.buckets.cell j))
      → equal_from K i n self obj ≡ ok (agrees obj (flat self.buckets.cell i n))
  equal_from-agrees i zero self obj v fits g = from_zero i self obj
  equal_from-agrees i (suc n) self obj v fits g =
      equal_from_step i n self obj (agrees obj (self.buckets.cell i))
        (load-in self.buckets i (omega arith))
        (equal_in-agrees obj self.hash_size i (self.buckets.cell i) v (g i (omega arith)))
      ∙ ap (λ o. if agrees obj (self.buckets.cell i) then o else ok false)
          (equal_from-agrees (suc i) n self obj v (omega arith) (λ j lt. g j (omega arith)))
      ∙ both (agrees obj (self.buckets.cell i)) (agrees obj (flat self.buckets.cell (suc i) n))
      ∙ ap ok (sym (agrees-append obj (self.buckets.cell i) (flat self.buckets.cell (suc i) n)))

  lookup-equal :
      (h : FHash A) (a b : A) → Lawful K → K.equal a b ≡ true → lookup K h a ≡ lookup K h b
  lookup-equal h a b L e =
      ap (λ d. value_of K a (h.buckets.cell (d % h.hash_size))) (L.hash-equal a b e)
      ∙ value_of-equal K L a b (h.buckets.cell (hash_key_to_val K h b)) e

  agrees-alike :
      (obj : FHash A) (items : List (FItem A)) (k : A)
      → Lawful K
      → agrees obj items ≡ true
      → alike (value_of K k items) (lookup K obj k) ≡ true
  agrees-alike obj [] k L t = refl
  agrees-alike obj (e ∷ rest) k L t = elim (Bool-cases (K.equal k e.key)) [
    | inl same ↦ rw (same, lookup-equal obj k e.key L same) (and_left _ _ t)
    | inr other ↦ rw other (agrees-alike obj rest k L (and_right _ _ t))
  ]

  disagrees :
      (obj : FHash A) (items : List (FItem A))
      → Lawful K
      → Apart K items
      → agrees obj items ≡ false
      → (k : A) × (alike (value_of K k items) (lookup K obj k) ≡ false)
  disagrees obj [] L a f = cc
  disagrees obj (e ∷ rest) L (apart, others) f =
      elim (Bool-cases (alike (some e.value) (lookup K obj e.key))) [
        | inr here ↦ (e.key, rw (L.refl_of e.key) here)
        | inl fine ↦
            let (k, there) = disagrees obj rest L others (rw fine at f) in
            (
              k,
              elim (Bool-cases (K.equal k e.key)) [
                | inr other ↦ rw other there
                | inl same ↦ cc (
                  there,
                  ap (λ o. alike o (lookup K obj k)) (value_of-equal K L k e.key rest same ∙ apart),
                )
              ],
            )
      ]

  -- `hash_equal_p` of two valid hashes decides whether they have as many buckets and as many items and
  -- the second has, for every key for which the first has a value, a value equal to it; where it says
  -- no, it is for one of these three. So hashes of the same items in different numbers of buckets are
  -- told to be unequal.
  pub hash_equal_p-cases :
      (self obj : FHash A)
      → Lawful K
      → IsValid K self
      → IsValid K obj
      → ((hash_equal_p K self obj ≡ ok true)
          × (self.hash_size ≡ obj.hash_size)
          × (self.length ≡ obj.length)
          × ((k : A) → alike (lookup K self k) (lookup K obj k) ≡ true))
        ⊎ ((hash_equal_p K self obj ≡ ok false)
            × ((self.hash_size ≢ obj.hash_size)
                ⊎ (self.length ≢ obj.length)
                ⊎ ((k : A) × (alike (lookup K self k) (lookup K obj k) ≡ false))))
  unfolding hash_equal_p
  hash_equal_p-cases self obj L v w = elim (Bool-cases (self.hash_size == obj.hash_size)) [
    | inr sizes ↦ inr (rw (sizes, hash_equal_p) refl, inl (ground arith))
    | inl sizes ↦ elim (Bool-cases (self.length == obj.length)) [
      | inr lengths ↦ inr (rw (sizes, lengths, hash_equal_p) refl, inr (inl (ground arith)))
      | inl lengths ↦
          let (_, apart, looks) = entries-Lists K self L v in
          let run =
            equal_from-agrees 0 self.hash_size self obj w (omega (arith, v.sized))
              (λ j lt. v.good j (omega arith)) in
          elim (Bool-cases (agrees obj (entries self))) [
            | inl t ↦ inl (
              rw (sizes, lengths, hash_equal_p) (run ∙ ap ok t),
              (==_iff _ _).0 sizes,
              (==_iff _ _).0 lengths,
              λ k.
                  ap (λ o. alike o (lookup K obj k)) (sym (looks k))
                  ∙ agrees-alike obj (entries self) k L t,
            )
            | inr f ↦
                let (k, differs) = disagrees obj (entries self) L apart f in
                inr (
                  rw (sizes, lengths, hash_equal_p) (run ∙ ap ok f),
                  inr (inr (k, ap (λ o. alike o (lookup K obj k)) (sym (looks k)) ∙ differs)),
                )
          ]
    ]
  ]
