-- ===== src/Assoc/Remove.antt =====
-- array_assoc_remove of src/array.c, on the elements as a map from ids.
use fth.Base.{
  ℕ, suc, ◌+◌, ◌-◌, ◌==◌, ==_iff, ◌≤◌, ◌<◌, ◌≡◌, refl, sym, ap, ◌∙◌, inl, inr, Bool-cases, lt→ltb,
  List, [], ◌∷◌, ◌++◌, none, some, ok, arith, if◌then◌else◌, length, pos, negsuc,
}
use mathlib.Core.Path.{subst, ap₂}
use fth.Memory.Slice.{slice, slice-append, length-slice}
use fth.Array.{FArray, view}
use fth.Array.Valid.{IsValid, Yields}
use fth.Array.Access.Index.{position}
use fth.Array.Edit.{array_delete}
use fth.Array.Edit.Delete.{array_delete-Yields}
use fth.Assoc.{Element, other, id_of, assoc_index, array_assoc_remove}
use fth.Assoc.Search.{Above, Sorted, assoc_index-Found}
use fth.Assoc.Ids.{find_id, find_id-none, other_test}

module _ {ℓ} {A : Type ℓ} (hash_id : A → ℕ) (false_object : A) where
  abbrev id : Element A → ℕ
  id e = id_of hash_id false_object e

  find_id-Above :
      (n m : ℕ) (xs : List (Element A))
      → n ≤ m
      → Above hash_id false_object m xs
      → find_id hash_id false_object n xs ≡ none
  find_id-Above n m [] le h = refl
  find_id-Above n m (x ∷ xs) le (here, rest) =
      rw (other_test n (id x) (inl (omega arith))) (find_id-Above n m xs le rest)

  Above-remove :
      (m : ℕ) (ys zs : List (Element A)) (e : Element A)
      → Above hash_id false_object m (ys ++ e ∷ zs)
      → Above hash_id false_object m (ys ++ zs) × (m < id e)
  Above-remove m [] zs e (here, rest) = (rest, here)
  Above-remove m (y ∷ ys) zs e (here, rest) =
      let (h, lt) = Above-remove m ys zs e rest in ((here, h), lt)

  Sorted-remove :
      (ys zs : List (Element A)) (e : Element A)
      → Sorted hash_id false_object (ys ++ e ∷ zs)
      → Sorted hash_id false_object (ys ++ zs)
  Sorted-remove [] zs e (above, rest) = rest
  Sorted-remove (y ∷ ys) zs e (above, rest) =
      ((Above-remove (id y) ys zs e above).0, Sorted-remove ys zs e rest)

  find_id-remove :
      (n : ℕ) (ys zs : List (Element A)) (e : Element A)
      → Sorted hash_id false_object (ys ++ e ∷ zs)
      → find_id hash_id false_object n (ys ++ zs)
        ≡ (if n == id e then none else find_id hash_id false_object n (ys ++ e ∷ zs))
  find_id-remove n [] zs e (above, rest) = elim (Bool-cases (n == id e)) [
    | inl t ↦ rw t (find_id-Above n (id e) zs (omega (arith, (==_iff n (id e)).0 t)) above)
    | inr f ↦ rw f
  ]
  find_id-remove n (y ∷ ys) zs e (above, rest) = elim (Bool-cases (n == id y)) [
    | inl t ↦
        let lower = (Above-remove (id y) ys zs e above).1 in
        rw (t, other_test n (id e) (inl (omega (arith, lower, (==_iff n (id y)).0 t))))
    | inr f ↦ rw f (find_id-remove n ys zs e rest)
  ]

  removed :
      (fresh : ℕ → Element A) (key : A) (a : FArray (Element A)) (i : ℕ) (e : Element A)
      (xs : List (Element A))
      → assoc_index hash_id false_object key (some a) ≡ ok (pos i)
      → Yields (array_delete (other false_object) fresh (pos i) a) e xs
      → Yields (array_assoc_remove hash_id false_object fresh key a) tt xs
  unfolding array_assoc_remove
  removed fresh key a i e xs run y =
      rw (run, y.returns, array_assoc_remove)
        (record { returns = refl; valid = y.valid; holds = y.holds })

  kept :
      (fresh : ℕ → Element A) (key : A) (a : FArray (Element A))
      → assoc_index hash_id false_object key (some a) ≡ ok (negsuc 0)
      → array_assoc_remove hash_id false_object fresh key a ≡ (ok tt, a)
  unfolding array_assoc_remove
  kept fresh key a run = rw (run, array_assoc_remove)

  -- the elements around the one at `i`
  around :
      (a : FArray (Element A)) (i : ℕ)
      → i < a.length
      → view a
        ≡ slice a.buf.cell a.data_offset i
          ++ a.buf.cell (a.data_offset + i)
            ∷ slice a.buf.cell (suc (a.data_offset + i)) (a.length - suc i)
  around a i lt =
      ap (slice a.buf.cell a.data_offset) {y = i + suc (a.length - suc i)} (omega arith)
      ∙ slice-append a.buf.cell a.data_offset i (suc (a.length - suc i))

  -- `array_assoc_remove` of a valid array that is sorted by ids returns and leaves a valid array that is
  -- sorted by ids, in which the id of the key has no pair and every other id what it had.
  pub array_assoc_remove-Removes :
      (fresh : ℕ → Element A) (key : A) (a : FArray (Element A))
      → IsValid a
      → Sorted hash_id false_object (view a)
      → (xs : List (Element A)) × Yields (array_assoc_remove hash_id false_object fresh key a) tt xs
        × Sorted hash_id false_object xs
        × ((n : ℕ)
            → find_id hash_id false_object n xs
              ≡ (if n == hash_id key then none else find_id hash_id false_object n (view a)))
  array_assoc_remove-Removes fresh key a v s =
      elim (assoc_index-Found hash_id false_object key a v s) [
        | inr (run, nowhere) ↦ (
          view a,
          subst (λ r. Yields r tt (view a)) (sym (kept fresh key a run))
              (record { returns = refl; valid = v; holds = refl }),
          s,
          λ n. never n (hash_id key) (view a) (
              find_id-none hash_id false_object (hash_id key) a.buf.cell a.data_offset a.length
                nowhere),
        )
        | inl (i, run, lt, at) ↦
            let ys = slice a.buf.cell a.data_offset i in
            let e = a.buf.cell (a.data_offset + i) in
            let zs = slice a.buf.cell (suc (a.data_offset + i)) (a.length - suc i) in
            let split = around a i lt in
            let found : position (pos i) a.length ≡ some (length ys) =
              position_in i a.length lt ∙ ap some (sym (length-slice a.buf.cell a.data_offset i)) in
            let sorted = subst (Sorted hash_id false_object) split s in
            (
              ys ++ zs,
              removed fresh key a i e (ys ++ zs) run
                  (array_delete-Yields (other false_object) fresh (pos i) a ys zs e v split found),
              Sorted-remove ys zs e sorted,
              λ n.
                  find_id-remove n ys zs e sorted
                  ∙ ap₂ (λ m l. if n == m then none else find_id hash_id false_object n l) at
                      (sym split),
            )
      ]
    where
      never :
          (n m : ℕ) (xs : List (Element A))
          → find_id hash_id false_object m xs ≡ none
          → find_id hash_id false_object n xs
            ≡ (if n == m then none else find_id hash_id false_object n xs)
      never n m xs missing = elim (Bool-cases (n == m)) [
        | inl t ↦ rw t (ap (λ k. find_id hash_id false_object k xs) ((==_iff n m).0 t) ∙ missing)
        | inr f ↦ rw f
      ]

      position_in : (i len : ℕ) → i < len → position (pos i) len ≡ some i
      position_in i len lt = ground (arith, lt→ltb i len lt)
