-- ===== src/Assoc/Refine.antt =====
-- array_assoc_ref and array_assoc_set of src/array.c, on the elements as a map from ids.
use fth.Base.{
  ℕ, ◌+◌, ◌==◌, ◌<◌, ◌≡◌, refl, sym, ap, ◌∙◌, ◌⊎◌, inl, inr, true, lt→ltb, List, ◌∷◌, ◌++◌, Option,
  none, some, ok, throw, out_of_range, arith, if◌then◌else◌, pos, negsuc, set,
}
use mathlib.Core.Path.{subst}
use fth.Memory.Slice.{get_elem?-slice}
use fth.Memory.Writes.{load-in}
use fth.Array.{FArray, view, new_seq_length, max_seq_length}
use fth.Array.Valid.{IsValid, Yields}
use fth.Array.Access.{ary_ref, array_set, in_range}
use fth.Array.Access.Index.{position, array_set-Yields}
use fth.Assoc.{
  Element, acell, acell_value, id_of, assoc_index, assoc_insert, array_assoc_ref, array_assoc_set,
}
use fth.Assoc.Search.{Sorted, Sorted-slice, assoc_index-Found}
use fth.Assoc.Insert.{assoc_insert-Yields}
use fth.Assoc.Ids.{
  find_id, Sorted-set, find_id-set, Sorted-insert, find_id-insert, find_id-slice, find_id-none,
}

module _ {ℓ} {A : Type ℓ} (hash_id : A → ℕ) (false_object : A) where
  -- the value of an element, or `#f` where there is none
  abbrev pub value_or_false : Option (Element A) → A
  value_or_false none = false_object
  value_or_false (some e) = acell_value hash_id false_object e

  find_id-at :
      (a : FArray (Element A)) (i n : ℕ)
      → Sorted hash_id false_object (view a)
      → i < a.length
      → id_of hash_id false_object (a.buf.cell (a.data_offset + i)) ≡ n
      → find_id hash_id false_object n (view a) ≡ some (a.buf.cell (a.data_offset + i))
  find_id-at a i n s lt at =
      find_id-slice hash_id false_object n a.buf.cell a.data_offset a.length i
        (λ j k below within.
          Sorted-slice hash_id false_object a.buf.cell a.data_offset a.length j k s below within)
        lt at

  ref_hit :
      (key : A) (a : FArray (Element A)) (i : ℕ)
      → IsValid a
      → assoc_index hash_id false_object key (some a) ≡ ok (pos i)
      → i < a.length
      → array_assoc_ref hash_id false_object key a
        ≡ ok (acell_value hash_id false_object (a.buf.cell (a.data_offset + i)))
  unfolding array_assoc_ref ary_ref in_range
  ref_hit key a i v run lt = rw (
    run,
    lt→ltb i a.length lt,
    load-in a.buf (a.data_offset + i) (omega (arith, v.sized, v.aimed, v.fits)),
    array_assoc_ref,
  )

  ref_miss :
      (key : A) (a : FArray (Element A))
      → assoc_index hash_id false_object key (some a) ≡ ok (negsuc 0)
      → array_assoc_ref hash_id false_object key a ≡ ok false_object
  unfolding array_assoc_ref
  ref_miss key a run = rw (run, array_assoc_ref)

  -- `array_assoc_ref` of a valid array that is sorted by ids gives the value of the element that has the
  -- id of the key, or `#f` where there is none: whether that element has an equal key is not asked.
  pub array_assoc_ref-find_id :
      (key : A) (a : FArray (Element A))
      → IsValid a
      → Sorted hash_id false_object (view a)
      → array_assoc_ref hash_id false_object key a
        ≡ ok (value_or_false (find_id hash_id false_object (hash_id key) (view a)))
  array_assoc_ref-find_id key a v s = elim (assoc_index-Found hash_id false_object key a v s) [
    | inl (i, run, lt, at) ↦
        ref_hit key a i v run lt
        ∙ ap (λ o. ok (value_or_false o)) (sym (find_id-at a i (hash_id key) s lt at))
    | inr (run, nowhere) ↦
        ref_miss key a run
        ∙ ap (λ o. ok (value_or_false o))
            (sym (
              find_id-none hash_id false_object (hash_id key) a.buf.cell a.data_offset a.length
                nowhere))
  ]

  -- What `array_assoc_set` promises: the map has the pair for the id of its key, and is what it was for
  -- all other ids.
  pub record Sets (key value : A) (xs ys : List (Element A)) : Type ℓ where
    pub sorted : Sorted hash_id false_object ys
    pub finds :
        (n : ℕ)
        → find_id hash_id false_object n ys
          ≡ (if n == hash_id key then some (acell key value) else find_id hash_id false_object n xs)

  set_hit :
      (fresh : ℕ → Element A) (key value : A) (a : FArray (Element A)) (i : ℕ)
      (xs : List (Element A))
      → assoc_index hash_id false_object key (some a) ≡ ok (pos i)
      → Yields (array_set (pos i) (acell key value) a) (acell key value) xs
      → Yields (array_assoc_set hash_id false_object fresh key value a) tt xs
  unfolding array_assoc_set
  set_hit fresh key value a i xs run y =
      rw (run, y.returns, array_assoc_set)
        (record { returns = refl; valid = y.valid; holds = y.holds })

  set_miss :
      (fresh : ℕ → Element A) (key value : A) (a : FArray (Element A))
      → assoc_index hash_id false_object key (some a) ≡ ok (negsuc 0)
      → array_assoc_set hash_id false_object fresh key value a
        ≡ assoc_insert hash_id false_object fresh (hash_id key) (acell key value) a
  unfolding array_assoc_set
  set_miss fresh key value a run = rw (run, array_assoc_set)

  overwritten :
      (fresh : ℕ → Element A) (key value : A) (a : FArray (Element A)) (i : ℕ)
      → IsValid a
      → Sorted hash_id false_object (view a)
      → assoc_index hash_id false_object key (some a) ≡ ok (pos i)
      → i < a.length
      → id_of hash_id false_object (a.buf.cell (a.data_offset + i)) ≡ hash_id key
      → Yields
          (array_assoc_set hash_id false_object fresh key value a)
          tt
          (set (view a) i (acell key value))
        × Sets key value (view a) (set (view a) i (acell key value))
  overwritten fresh key value a i v s run lt at =
      let here = get_elem?-slice a.buf.cell a.data_offset a.length i lt in
      let place : position (pos i) a.length ≡ some i = ground (arith, lt→ltb i a.length lt) in
      (
        elim (array_set-Yields (pos i) (acell key value) a v) [
          | inl (j, at_j, y) ↦
              let same : j ≡ i = cc in
              set_hit fresh key value a i _ run (
                subst
                  (λ k.
                    Yields (array_set (pos i) (acell key value) a) (acell key value)
                      (set (view a) k (acell key value)))
                  same y)
          | inr (nowhere, _) ↦ cc
        ],
        record {
          sorted = Sorted-set hash_id false_object (view a) i (acell key value) _ here (sym at) s;
          finds = λ n.
              find_id-set hash_id false_object n (view a) i (acell key value) _ here (sym at) s;
        },
      )

  -- `array_assoc_set` of a valid array that is sorted by ids leaves a valid array that is sorted by ids,
  -- in which the id of the key has the new pair and every other id what it had, so that a key whose id
  -- is that of another key overwrites it; or else it raises OUT-OF-RANGE because the size that it reckons
  -- with is beyond the limit, and leaves the elements as they were.
  pub array_assoc_set-Sets :
      (fresh : ℕ → Element A) (key value : A) (a : FArray (Element A))
      → IsValid a
      → Sorted hash_id false_object (view a)
      → ((xs : List (Element A)) × Yields
            (array_assoc_set hash_id false_object fresh key value a)
            tt
            xs
          × Sets key value (view a) xs)
        ⊎ ((array_assoc_set hash_id false_object fresh key value a
              ≡ (throw out_of_range, record a { is_assoc = true }))
            × (max_seq_length < new_seq_length (a.top + a.length + 1)))
  array_assoc_set-Sets fresh key value a v s =
      elim (assoc_index-Found hash_id false_object key a v s) [
        | inl (i, run, lt, at) ↦
            let (y, sets) = overwritten fresh key value a i v s run lt at in
            inl (set (view a) i (acell key value), y, sets)
        | inr (run, nowhere) ↦
            let missing =
              find_id-none hash_id false_object (hash_id key) a.buf.cell a.data_offset a.length
                nowhere in
            elim (assoc_insert-Yields hash_id false_object fresh (hash_id key) (acell key value) a
              v) [
                | inr (raised, long) ↦ inr (set_miss fresh key value a run ∙ raised, long)
                | inl (ys, zs, split, low, high, y) ↦
                    let gone =
                      ap (find_id hash_id false_object (hash_id key)) (sym split) ∙ missing in
                    inl (
                      ys ++ acell key value ∷ zs,
                      subst (λ r. Yields r tt (ys ++ acell key value ∷ zs))
                          (sym (set_miss fresh key value a run)) y,
                      record {
                        sorted =
                            Sorted-insert hash_id false_object (acell key value) ys zs low high gone
                              (subst (Sorted hash_id false_object) split s);
                        finds = λ n.
                            find_id-insert hash_id false_object n (acell key value) ys zs gone
                            ∙ ap
                                (λ l.
                                  if n == hash_id key
                                  then some (acell key value)
                                  else find_id hash_id false_object n l)
                                (sym split);
                      },
                    )
              ]
      ]
