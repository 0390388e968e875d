-- ===== src/Assoc/Insert.antt =====
-- assoc_insert of src/array.c.
use fth.Base.{
  ℕ, zero, suc, ◌+◌, ◌-◌, ◌≤◌, ◌<◌, ◌≡◌, refl, sym, ap, ◌∙◌, ◌⊎◌, inl, inr, true, false, ltb,
  ltb→lt, ltb_false→le, Bool-cases, List, [], ◌∷◌, ◌++◌, some, throw, out_of_range, arith,
  if◌then◌else◌, length,
}
use mathlib.Core.Path.{subst, ap₂}
use fth.Memory.{update, moved}
use fth.Memory.Slice.{slice, slice_ext, slice_split}
use fth.Memory.Writes.{load-in, memmove-in, store-in}
use fth.Memory.Moves.{slice_opened}
use fth.Array.{FArray, view, resize, new_seq_length, max_seq_length}
use fth.Array.Valid.{IsValid, Yields, resize-IsValid, view-resize, resize_fields}
use fth.Assoc.{Element, id_of, place, put_at, assoc_insert}

update-moved {ℓ} :
    {A : Type ℓ} (f : ℕ → A) (j : ℕ) (x : A) (k : ℕ) → update f j x k ≡ moved f (λ _. x) j 0 1 k
update-moved f j x k = ground arith

module _ {ℓ} {A : Type ℓ} (hash_id : A → ℕ) (false_object : A) where
  -- No id in the list is greater than `n`.
  abbrev pub NotAbove : ℕ → List (Element A) → Type 0
  NotAbove n [] = Unit
  NotAbove n (e ∷ rest) = (id_of hash_id false_object e ≤ n) × NotAbove n rest

  -- The first id in the list, if any, is greater than `n`.
  abbrev pub StartsAbove : ℕ → List (Element A) → Type 0
  StartsAbove n [] = Unit
  StartsAbove n (e ∷ rest) = n < id_of hash_id false_object e

  -- Where the loop of `assoc_insert` stops.
  place-splits :
      (n i id : ℕ) (a : FArray (Element A))
      → IsValid a
      → i + n ≤ a.length
      → (ys : List (Element A)) × (zs : List (Element A)) × (place hash_id false_object n i id a
          ≡ some (i + length ys))
        × (slice a.buf.cell (a.data_offset + i) n ≡ ys ++ zs)
        × NotAbove id ys
        × StartsAbove id zs
  unfolding place
  place-splits zero i id a v fits = ([], [], ap some (omega arith), refl, tt, tt)
  place-splits (suc n) i id a v fits =
      let e = a.buf.cell (a.data_offset + i) in
      let loaded = load-in a.buf (a.data_offset + i) (omega (arith, v.sized, v.aimed, v.fits)) in
      elim (Bool-cases (ltb id (id_of hash_id false_object e))) [
        | inl less ↦ (
          [],
          slice a.buf.cell (a.data_offset + i) (suc n),
          rw (loaded, less, place) (ap some (omega arith)),
          refl,
          tt,
          ltb→lt _ _ less,
        )
        | inr more ↦
            let (ys, zs, run, split, low, high) = place-splits n (i + 1) id a v (omega arith) in
            (
              e ∷ ys,
              zs,
              rw (loaded, more, place) (run ∙ ap some {y = i + suc (length ys)} (omega arith)),
              ap (λ o. e ∷ slice a.buf.cell o n) (omega arith) ∙ ap (λ l. e ∷ l) split,
              (ltb_false→le _ _ more, low),
              high,
            )
      ]

  put_at-Yields :
      (val : Element A) (a : FArray (Element A)) (ys zs : List (Element A))
      → IsValid a
      → a.top + (a.length + 1) ≤ a.buf_length
      → view a ≡ ys ++ zs
      → Yields (put_at (length ys) val a) tt (ys ++ val ∷ zs)
  unfolding put_at
  put_at-Yields val a ys zs v room e =
      let i = length ys in
      let (front, back, size) = slice_split a.buf.cell a.data_offset a.length ys zs e in
      let g =
        moved a.buf.cell a.buf.cell (a.data_offset + i + 1) (a.data_offset + i) (a.length - i) in
      let first =
        memmove-in a.buf (a.data_offset + i + 1) a.buf (a.data_offset + i) (a.length - i)
          (omega (arith, size, v.sized, v.aimed)) (omega (arith, size, v.sized, v.aimed)) in
      let second =
        store-in (record a.buf { cell = g }) (a.data_offset + i) val
          (omega (arith, size, v.sized, v.aimed)) in
      rw (first, second, put_at)
        (record {
          returns = refl;
          valid = record { sized = v.sized; aimed = v.aimed; fits = room };
          holds =
              slice_ext (update g (a.data_offset + i) val)
                (moved g (λ _. val) (a.data_offset + i) 0 1) a.data_offset a.data_offset
                (a.length + 1) (λ k lt. update-moved g (a.data_offset + i) val (a.data_offset + k))
              ∙ ap (slice (moved g (λ _. val) (a.data_offset + i) 0 1) a.data_offset)
                  {y = i + 1 + (a.length - i)} (omega (arith, size))
              ∙ slice_opened a.buf.cell a.data_offset i (λ _. val) 0 1 (a.length - i)
              ∙ ap₂ ◌++◌ front (ap (λ l. val ∷ l) back);
        })

  -- the array as it is when `assoc_insert` has room for one more element
  roomy : (ℕ → Element A) → FArray (Element A) → FArray (Element A)
  roomy fresh a =
      let len = new_seq_length (a.top + a.length + 1) in
      let marked = record a { is_assoc = true } in
      if ltb a.buf_length len then resize fresh len marked else marked

  insert_run :
      (fresh : ℕ → Element A) (id i : ℕ) (val : Element A) (a : FArray (Element A))
      → place hash_id false_object a.length 0 id a ≡ some i
      → ltb max_seq_length (new_seq_length (a.top + a.length + 1)) ≡ false
      → assoc_insert hash_id false_object fresh id val a ≡ put_at i val (roomy fresh a)
  unfolding assoc_insert roomy
  insert_run fresh id i val a run f = rw (run, f, assoc_insert)

  insert_raises :
      (fresh : ℕ → Element A) (id i : ℕ) (val : Element A) (a : FArray (Element A))
      → place hash_id false_object a.length 0 id a ≡ some i
      → ltb max_seq_length (new_seq_length (a.top + a.length + 1)) ≡ true
      → assoc_insert hash_id false_object fresh id val a
        ≡ (throw out_of_range, record a { is_assoc = true })
  unfolding assoc_insert
  insert_raises fresh id i val a run t = rw (run, t, assoc_insert)

  roomy-keeps :
      (fresh : ℕ → Element A) (a : FArray (Element A))
      → IsValid a
      → IsValid (roomy fresh a)
        × (view (roomy fresh a) ≡ view a)
        × ((roomy fresh a).top + ((roomy fresh a).length + 1) ≤ (roomy fresh a).buf_length)
  unfolding roomy
  roomy-keeps fresh a v =
      let marked = record a { is_assoc = true } in
      let len = new_seq_length (a.top + a.length + 1) in
      let w : IsValid marked = record { sized = v.sized; aimed = v.aimed; fits = v.fits } in
      elim (Bool-cases (ltb a.buf_length len)) [
        | inl short ↦ rw short (
          resize-IsValid fresh len marked (omega (arith, v.fits)),
          view-resize fresh len marked w,
          omega (arith, resize_fields fresh len marked),
        )
        | inr enough ↦ rw enough (w, refl, omega (arith, ltb_false→le _ _ enough))
      ]

  -- `assoc_insert` into a valid array puts its element before the first one that has a greater id than
  -- the one given, and leaves the array valid; or else it raises OUT-OF-RANGE because the size that it
  -- reckons with is beyond the limit, and leaves the elements as they were.
  pub assoc_insert-Yields :
      (fresh : ℕ → Element A) (id : ℕ) (val : Element A) (a : FArray (Element A))
      → IsValid a
      → ((ys : List (Element A)) × (zs : List (Element A)) × (view a ≡ ys ++ zs)
          × NotAbove id ys
          × StartsAbove id zs
          × Yields (assoc_insert hash_id false_object fresh id val a) tt (ys ++ val ∷ zs))
        ⊎ ((assoc_insert hash_id false_object fresh id val a
              ≡ (throw out_of_range, record a { is_assoc = true }))
            × (max_seq_length < new_seq_length (a.top + a.length + 1)))
  assoc_insert-Yields fresh id val a v =
      let (ys, zs, run, split, low, high) = place-splits a.length 0 id a v (omega arith) in
      let run' = run ∙ ap some {y = length ys} (omega arith) in
      let whole = ap (λ o. slice a.buf.cell o a.length) {x = a.data_offset} (omega arith) ∙ split in
      elim (Bool-cases (ltb max_seq_length (new_seq_length (a.top + a.length + 1)))) [
        | inl long ↦ inr (insert_raises fresh id (length ys) val a run' long, ltb→lt _ _ long)
        | inr fits ↦
            let (w, same, room) = roomy-keeps fresh a v in
            inl (
              ys,
              zs,
              whole,
              low,
              high,
              subst (λ r. Yields r tt (ys ++ val ∷ zs))
                  (sym (insert_run fresh id (length ys) val a run' fits))
                  (put_at-Yields val (roomy fresh a) ys zs w room (same ∙ whole)),
            )
      ]
