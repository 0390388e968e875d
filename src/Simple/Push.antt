-- ===== src/Simple/Push.antt =====
-- simple_array_push appends, simple_array_pop takes the last element.
use fth.Base.{
  ℕ, ◌+◌, ◌-◌, ◌%◌, ◌≤◌, ◌<◌, ◌≡◌, refl, sym, ap, ◌∙◌, inl, inr, true, false, ◌==◌, ==_iff, ltb,
  if◌then◌else◌, List, [], ◌∷◌, ◌++◌, Bool-cases, Option, none, some, ok, arith, length,
  length-append,
}
use native.Mathlib.Nat.{add-mod_right}
use mathlib.Core.Path.{subst}
use fth.Memory.{Block, realloc, update}
use fth.Memory.Slice.{slice, slice_snoc}
use fth.Memory.Writes.{store-in, slice-realloc, slice-update_outside, update_eq}
use fth.Array.Ends.Pop.{snoc_injective}
use fth.Simple.{
  SimpleArray, view, items, block_of, no_data, roomy, simple_array_push, simple_array_pop,
  simple_array_clear, cell_at,
}
use fth.Simple.Valid.{
  IsValid, Yields, HasRoom, empty-IsValid, block_there, cell_at-some, length-view,
}

module _ {ℓ} {A : Type ℓ} where
  -- a block with the elements of `a` and room for one more
  record Roomy (a : SimpleArray A) (b : Block A) : Type ℓ where
    room : ℕ
    multiple : room % a.incr ≡ 0
    above : a.length + 1 ≤ room
    inside : room ≤ b.size
    kept : slice b.cell 0 a.length ≡ view a

  grown :
      (fresh : ℕ → A) (a : SimpleArray A) (c : Option (Block A))
      → a.cells ≡ c
      → IsValid a
      → HasRoom c a.length
      → a.length % a.incr ≡ 0
      → Roomy a (realloc fresh (block_of fresh a.cells) (a.length + a.incr))
  unfolding realloc
  grown fresh a c e v inside whole = record {
    room = a.length + a.incr;
    multiple = add-mod_right a.length a.incr ∙ whole;
    above = omega (arith, v.grows);
    inside = omega arith;
    kept = same c e inside;
  }
    where
      same :
          (c : Option (Block A))
          → a.cells ≡ c
          → HasRoom c a.length
          → slice (realloc fresh (block_of fresh a.cells) (a.length + a.incr)).cell 0 a.length
            ≡ view a
      same none e z = rw (e, z) refl
      same (some b) e le =
          rw e (slice-realloc fresh b (a.length + a.incr) 0 a.length (omega (arith, le)))

  below : (a : SimpleArray A) (v : IsValid a) → (a.length % a.incr == 0) ≡ false → a.length < v.room
  below a v f = elim (Bool-cases (a.length == v.room)) [
    | inr u ↦ let le = v.holds in ground (arith, u, le)
    | inl t ↦
        let same = (==_iff a.length v.room).0 t in
        let zero_rest : a.length % a.incr ≡ 0 = ap (λ n. n % a.incr) same ∙ v.multiple in
        absurd (ground (arith, zero_rest, f))
  ]

  roomy-Roomy : (fresh : ℕ → A) (a : SimpleArray A) → IsValid a → Roomy a (roomy fresh a)
  unfolding roomy no_data
  roomy-Roomy fresh a v = go a.cells refl v.inside
    where
      go : (c : Option (Block A)) → a.cells ≡ c → HasRoom c v.room → Roomy a (roomy fresh a)
      go none e z =
          let nothing : a.length ≡ 0 = omega (arith, v.holds, z) in
          let whole : a.length % a.incr ≡ 0 = ap (λ n. n % a.incr) (nothing ∙ sym z) ∙ v.multiple in
          rw (e, roomy, no_data) (rw e at (grown fresh a none e v nothing whole))
      go (some b) e le = elim (Bool-cases (a.length % a.incr == 0)) [
        | inl t ↦
            rw (e, t, roomy, no_data)
              (rw e at (
                grown fresh a (some b) e v (omega (arith, v.holds, le))
                  ((==_iff (a.length % a.incr) 0).0 t)))
        | inr f ↦
            let apart : a.length < v.room = below a v f in
            rw (e, f, roomy, no_data)
              (record {
                room = v.room;
                multiple = v.multiple;
                above = omega (arith, apart);
                inside = le;
                kept = refl;
              })
      ]

  push_run :
      (fresh : ℕ → A) (obj : A) (a : SimpleArray A)
      → a.length < (roomy fresh a).size
      → simple_array_push fresh obj a ≡ (
        ok tt,
        record a {
          cells = some (record (roomy fresh a) { cell = update (roomy fresh a).cell a.length obj });
          length = a.length + 1;
        },
      )
  unfolding simple_array_push
  push_run fresh obj a lt =
      let put = store-in (roomy fresh a) a.length obj lt in rw (put, simple_array_push) refl

  -- `simple_array_push` appends its object to a valid array and leaves it valid.
  pub simple_array_push-Yields :
      (fresh : ℕ → A) (obj : A) (a : SimpleArray A)
      → IsValid a
      → Yields (simple_array_push fresh obj a) tt (view a ++ obj ∷ [])
  simple_array_push-Yields fresh obj a v =
      let r = roomy-Roomy fresh a v in
      let b = roomy fresh a in
      subst (λ m. Yields m tt (view a ++ obj ∷ []))
        (sym (push_run fresh obj a (omega (arith, r.above, r.inside))))
        (record {
          returns = refl;
          valid = record {
            grows = v.grows;
            room = r.room;
            multiple = r.multiple;
            holds = r.above;
            inside = r.inside;
          };
          shows =
              slice_snoc (update b.cell a.length obj) 0 a.length
              ∙ ap (λ x. slice (update b.cell a.length obj) 0 a.length ++ x ∷ [])
                  (update_eq b.cell a.length obj (0 + a.length) (omega arith))
              ∙ ap (λ l. l ++ obj ∷ [])
                  (slice-update_outside b.cell a.length obj 0 a.length (inr (omega arith))
                    ∙ r.kept);
        })

  -- the array without its last element
  unfoldable pub shortened : SimpleArray A → SimpleArray A
  unfolding simple_array_clear
  shortened a =
      let shorter = record a { length = a.length - 1 } in
      if a.length - 1 == 0 then simple_array_clear shorter else shorter

  pub shortened-IsValid : (a : SimpleArray A) → IsValid a → IsValid (shortened a)
  unfolding shortened
  shortened-IsValid a v = elim (Bool-cases (a.length - 1 == 0)) [
    | inl t ↦ rw t (empty-IsValid (record a { length = a.length - 1 }) v.grows)
    | inr f ↦ rw f (record {
      grows = v.grows;
      room = v.room;
      multiple = v.multiple;
      holds = omega (arith, v.holds);
      inside = v.inside;
    })
  ]

  pub view-shortened :
      (a : SimpleArray A) (b : Block A)
      → a.cells ≡ some b
      → view (shortened a) ≡ slice b.cell 0 (a.length - 1)
  unfolding shortened simple_array_clear
  view-shortened a b e = elim (Bool-cases (a.length - 1 == 0)) [
    | inl t ↦ rw t (ap (slice b.cell 0) {x = 0} (sym ((==_iff (a.length - 1) 0).0 t)))
    | inr f ↦ rw f (rw e refl)
  ]

  pop_run :
      (a : SimpleArray A) (x : A)
      → ltb 0 a.length ≡ true
      → cell_at a (a.length - 1) ≡ some x
      → simple_array_pop a ≡ (ok (some x), shortened a)
  unfolding simple_array_pop shortened
  pop_run a x t e = rw (t, e, simple_array_pop) refl

  -- From a valid array of `xs` and then `x`, `simple_array_pop` returns `x` and leaves a valid array
  -- of `xs`.
  pub simple_array_pop-Yields :
      (a : SimpleArray A) (xs : List A) (x : A)
      → IsValid a
      → view a ≡ xs ++ x ∷ []
      → Yields (simple_array_pop a) (some x) xs
  simple_array_pop-Yields a xs x v e =
      let n = length xs in
      let size : a.length ≡ n + 1 =
        omega (arith, length-view a v, ap length e, length-append xs (x ∷ [])) in
      let (b, there, room) = block_there a v (omega (arith, size)) in
      let t : ltb 0 a.length ≡ true = ground (arith, size) in
      let here = cell_at-some a b (a.length - 1) there (omega (arith, room, size)) in
      let whole : slice b.cell 0 n ++ b.cell (0 + n) ∷ [] ≡ xs ++ x ∷ [] =
        sym (slice_snoc b.cell 0 n)
        ∙ ap (slice b.cell 0) {y = a.length} (omega (arith, size))
        ∙ sym (ap (λ c. items c a.length) there)
        ∙ e in
      let (front, last) = snoc_injective (slice b.cell 0 n) xs (b.cell (0 + n)) x whole in
      subst (λ m. Yields m (some x) xs) (sym (pop_run a (b.cell (a.length - 1)) t here))
        (record {
          returns = ap (λ y. ok (some y)) (ap b.cell {y = 0 + n} (omega (arith, size)) ∙ last);
          valid = shortened-IsValid a v;
          shows =
              view-shortened a b there ∙ ap (slice b.cell 0) {y = n} (omega (arith, size)) ∙ front;
        })
