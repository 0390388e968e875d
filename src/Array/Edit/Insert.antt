-- ===== src/Array/Edit/Insert.antt =====
-- fth_array_insert behind the first element, and what the kinds of its argument come to.
use fth.Base.{
  ℕ, zero, suc, ◌+◌, ◌-◌, ◌≤◌, ◌≡◌, refl, sym, ap, ◌∙◌, ◌⊎◌, inl, inr, List, [], ◌∷◌, ◌++◌, arith,
  ℤ, pos, negsuc, some, length,
}
use mathlib.Core.Path.{subst, ap₂}
use fth.Memory.{Block, moved}
use fth.Memory.Slice.{slice, slice_split, length-slice}
use fth.Memory.Writes.{memmove-in, slice-moved_outside}
use fth.Memory.Moves.{slice_opened}
use fth.Array.{FArray, view}
use fth.Array.Valid.{IsValid, Yields, Refuses, reserve-Reserved}
use fth.Array.Access.{in_range, from_end}
use fth.Array.Access.Index.{position, in_range-from_end}
use fth.Array.Access.Make.{make_array_var-Makes}
use fth.Array.Edit.{
  Argument, single, elements, itself, move_in, insert_at, insert_inside, insert_from, array_insert,
}

module _ {ℓ} {A : Type ℓ} where
  -- The inserted cells, read once the tail has moved, are inside their block and hold `xs`.
  record Supplies (a : FArray A) (i m : ℕ) (ins : FArray A → Block A × ℕ) (xs : List A)
      : Type ℓ where
    inside :
        (b : FArray A)
        → b.buf ≡ record a.buf {
          cell =
              moved a.buf.cell a.buf.cell
                (a.data_offset + i + m)
                (a.data_offset + i)
                (a.length - i);
        }
        → b.data_offset ≡ a.data_offset
        → ((ins b).1 + m ≤ (ins b).0.size) × (slice (ins b).0.cell (ins b).1 m ≡ xs)

  move_in-Yields :
      (m : ℕ) (ins : FArray A → Block A × ℕ) (a : FArray A) (ys zs xs : List A)
      → IsValid a
      → a.top + (a.length + m) ≤ a.buf_length
      → view a ≡ ys ++ zs
      → Supplies a (length ys) m ins xs
      → Yields (move_in (length ys) m ins a) tt (ys ++ (xs ++ zs))
  unfolding move_in
  move_in-Yields m ins a ys zs xs v room e given =
      let i = length ys in
      let (front, back, size) = slice_split a.buf.cell a.data_offset a.length ys zs e in
      let g =
        moved a.buf.cell a.buf.cell (a.data_offset + i + m) (a.data_offset + i) (a.length - i) in
      let opened = record a { buf = record a.buf { cell = g } } in
      let (bound, holds) = given.inside opened refl refl in
      let first =
        memmove-in a.buf (a.data_offset + i + m) a.buf (a.data_offset + i) (a.length - i)
          (omega (arith, size)) (omega (arith, size)) in
      let second =
        memmove-in opened.buf (a.data_offset + i) (ins opened).0 (ins opened).1 m
          (omega (arith, size)) bound in
      rw (first, second, move_in)
        (record {
          returns = refl;
          valid = record { sized = v.sized; aimed = v.aimed; fits = room };
          holds =
              ap
                (slice (moved g (ins opened).0.cell (a.data_offset + i) (ins opened).1 m)
                  a.data_offset)
                {y = i + m + (a.length - i)} (omega (arith, size))
              ∙ slice_opened a.buf.cell a.data_offset i (ins opened).0.cell (ins opened).1 m
                  (a.length - i)
              ∙ ap₂ ◌++◌ front (ap₂ ◌++◌ holds back);
        })

  insert_at-Yields :
      (fresh : ℕ → A) (m : ℕ) (ins : FArray A → Block A × ℕ) (a : FArray A) (ys zs xs : List A)
      → IsValid a
      → m ≡ length xs
      → view a ≡ ys ++ zs
      → ((b : FArray A)
          → IsValid b
          → view b ≡ view a
          → b.length ≡ a.length
          → Supplies b (length ys) m ins xs)
      → Yields (insert_at fresh (length ys) m ins a) tt (ys ++ (xs ++ zs))
        ⊎ Refuses (insert_at fresh (length ys) m ins a) a (a.top + (a.length + length xs))
  unfolding insert_at move_in
  insert_at-Yields fresh m ins a ys zs xs v l e given =
      elim (reserve-Reserved fresh (a.top + (a.length + m)) a v) [
        | inr (run, short, long) ↦
            inr (rw (run, insert_at), omega (arith, short, l), omega (arith, long, l))
        | inl (b, run, r) ↦ inl (
            subst (λ o. Yields o tt (ys ++ (xs ++ zs))) (sym (rw (run, insert_at)))
              (move_in-Yields m ins b ys zs xs r.valid
                (omega (arith, r.room, r.same_top, r.same_length)) (r.same_view ∙ e)
                (given b r.valid r.same_view r.same_length)))
      ]

  -- what an argument holds: its elements if it is an array, and else itself
  abbrev pub items : FArray A → Argument A → List A
  items a (single x) = x ∷ []
  items a (elements b) = view b
  items a itself = view a

  abbrev pub IsSound : Argument A → Type ℓ
  IsSound (single x) = Unit
  IsSound (elements b) = IsValid b
  IsSound itself = Unit

  block_Supplies :
      (c : FArray A) (a : FArray A) (i : ℕ)
      → IsValid c
      → Supplies a i c.length (λ _. (c.buf, c.data_offset)) (view c)
  block_Supplies c a i v = record { inside = λ b _ _. (omega arith, refl) }

  itself_Supplies :
      (b : FArray A) (i n : ℕ)
      → IsValid b
      → n ≡ b.length
      → Supplies b i n (λ opened. (opened.buf, opened.data_offset)) (view b)
  itself_Supplies b i n v e =
      let g =
        moved b.buf.cell b.buf.cell (b.data_offset + i + n) (b.data_offset + i) (b.length - i) in
      record {
        inside = λ o eb eo. (
          omega (arith, eo, ap (λ (w : Block A). w.size) eb, e),
          ap (λ (w : Block A). slice w.cell o.data_offset n) eb
              ∙ ap₂ (slice g) eo e
              ∙ slice-moved_outside b.buf.cell b.buf.cell (b.data_offset + i + n)
                  (b.data_offset + i) (b.length - i) b.data_offset b.length (inl (omega arith)),
        );
      }

  insert_inside-Yields :
      (z : A) (fresh : ℕ → A) (value : Argument A) (a : FArray A) (ys zs : List A)
      → IsValid a
      → IsSound value
      → view a ≡ ys ++ zs
      → Yields (insert_inside z fresh (length ys) value a) tt (ys ++ (items a value ++ zs))
        ⊎ Refuses
            (insert_inside z fresh (length ys) value a)
            a
            (a.top + (a.length + length (items a value)))
  unfolding insert_inside
  insert_inside-Yields z fresh (single x) a ys zs v w e = elim (make_array_var-Makes z (x ∷ [])) [
    | inr (_, long) ↦ absurd (omega (arith, long))
    | inl (one, run, v', holds) ↦
        rw (run, insert_inside)
          (insert_at-Yields fresh one.length (λ _. (one.buf, one.data_offset)) a ys zs (x ∷ []) v
            (omega (arith, ap length holds, length-slice one.buf.cell one.data_offset one.length)) e
            (λ b _ _ _.
              subst (Supplies b (length ys) one.length (λ _. (one.buf, one.data_offset))) holds
                (block_Supplies one b (length ys) v')))
  ]
  insert_inside-Yields z fresh (elements c) a ys zs v w e =
      insert_at-Yields fresh c.length (λ _. (c.buf, c.data_offset)) a ys zs (view c) v
        (sym (length-slice c.buf.cell c.data_offset c.length)) e
        (λ b _ _ _. block_Supplies c b (length ys) w)
  insert_inside-Yields z fresh itself a ys zs v w e =
      insert_at-Yields fresh a.length (λ opened. (opened.buf, opened.data_offset)) a ys zs (view a)
        v (sym (length-slice a.buf.cell a.data_offset a.length)) e
        (λ b v' same l.
          subst (Supplies b (length ys) a.length (λ opened. (opened.buf, opened.data_offset))) same
            (itself_Supplies b (length ys) a.length v' (sym l)))

  insert_from_inside :
      (z : A) (fresh : ℕ → A) (value : Argument A) (a : FArray A) (i : ℕ) (j : ℤ)
      → in_range j a.length ≡ some (suc i)
      → insert_from z fresh j value a ≡ insert_inside z fresh (suc i) value a
  unfolding insert_from in_range
  insert_from_inside z fresh value a i (pos zero) e = absurd (ground arith)
  insert_from_inside z fresh value a i (pos (suc j)) e = rw (e, insert_from)
  insert_from_inside z fresh value a i (negsuc j) e = cc

  -- Where the index means a position of a valid array behind the first, with `ys` before it and `zs` from it on,
  -- `array_insert` puts the items of its argument between them, also where the argument is the
  -- array itself; or else it raises OUT-OF-RANGE because the grown buffer would be too long, and
  -- leaves the array as it was.
  pub array_insert-Yields :
      (z : A) (fresh : ℕ → A) (idx : ℤ) (value : Argument A) (a : FArray A) (y : A) (ys zs : List A)
      → IsValid a
      → IsSound value
      → view a ≡ (y ∷ ys) ++ zs
      → position idx a.length ≡ some (suc (length ys))
      → Yields (array_insert z fresh idx value a) tt ((y ∷ ys) ++ (items a value ++ zs))
        ⊎ Refuses (array_insert z fresh idx value a) a (a.top + (a.length + length (items a value)))
  unfolding array_insert
  array_insert-Yields z fresh idx value a y ys zs v w e p =
      rw
        (insert_from_inside z fresh value a (length ys) (from_end idx a.length)
          (in_range-from_end idx a.length ∙ p))
        (insert_inside-Yields z fresh value a (y ∷ ys) zs v w e)
