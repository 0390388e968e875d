-- ===== src/Simple/Delete.antt =====
-- simple_array_delete and simple_array_rdelete take out one element.
use fth.Base.{
  ℕ, suc, ◌+◌, ◌-◌, ◌≤◌, ◌<◌, ◌≡◌, refl, sym, ap, ◌∙◌, inl, inr, Bool, true, false, ltb, ltb→lt,
  ltb_false→le, ◌==◌, if◌then◌else◌, List, [], ◌∷◌, ◌++◌, Bool-cases, Outcome, Option, none, some,
  ok, arith, length, take, drop,
}
use mathlib.Core.Path.{subst, ap₂}
use mathlib.Core.List.{append-nil}
use fth.Memory.{Block, moved}
use fth.Memory.Slice.{slice, take-slice, drop-slice}
use fth.Memory.Writes.{memmove-in}
use fth.Memory.Moves.{slice_closed}
use fth.Simple.{
  SimpleArray, Method, view, items, close_gap, remove_at, delete_found, simple_array_delete,
  simple_array_rdelete,
}
use fth.Simple.Valid.{IsValid, Yields, block_there, length-view}
use fth.Simple.Push.{shortened, shortened-IsValid, view-shortened}
use fth.Simple.Search.{
  first_place, last_place, later, simple_array_index-first_place, simple_array_rindex-last_place,
}

module _ {ℓ} {A : Type ℓ} where
  closed_from_start :
      (f : ℕ → A) (i r : ℕ)
      → slice (moved f f i (i + 1) r) 0 (i + r) ≡ slice f 0 i ++ slice f (i + 1) r
  closed_from_start f i r =
      ap (λ k. slice (moved f f k (k + 1) r) 0 (i + r)) {y = 0 + i} (omega arith)
      ∙ slice_closed f 0 i r
      ∙ ap (λ k. slice f 0 i ++ slice f (k + 1) r) {y = i} (omega arith)

  -- the list without its element at place `i`
  abbrev pub without : List A → ℕ → List A
  without xs i = take i xs ++ drop (suc i) xs

  view-without :
      (a : SimpleArray A) (b : Block A) (i : ℕ)
      → a.cells ≡ some b
      → i < a.length
      → slice b.cell 0 i ++ slice b.cell (i + 1) (a.length - 1 - i) ≡ without (view a) i
  view-without a b i e lt =
      ap₂ ◌++◌ (sym (take-slice b.cell 0 i a.length (omega arith))) (
        ap₂ (slice b.cell) {y = 0 + suc i} {v = a.length - suc i} (omega arith) (omega arith)
        ∙ sym (drop-slice b.cell 0 (suc i) a.length (omega arith)))
      ∙ ap (λ c. without (items c a.length) i) (sym e)

  -- where the element is the last, or the only one
  last_run :
      (obj : A) (i : ℕ) (a : SimpleArray A)
      → a.length ≡ i + 1
      → remove_at obj i a ≡ (ok (some obj), shortened a)
  unfolding remove_at shortened
  last_run obj i a e =
      let t : ltb i (a.length - 1) ≡ false = ground (arith, e) in
      elim (Bool-cases (a.length - 1 == 0)) [
        | inl z ↦ rw (z, remove_at, shortened) refl
        | inr z ↦ rw (z, t, remove_at, shortened) refl
      ]

  inner_run :
      (obj : A) (i : ℕ) (a : SimpleArray A) (b : Block A)
      → a.cells ≡ some b
      → i + 1 < a.length
      → a.length ≤ b.size
      → remove_at obj i a ≡ (
        ok (some obj),
        record a {
          cells = some (record b { cell = moved b.cell b.cell i (i + 1) (a.length - 1 - i) });
          length = a.length - 1;
        },
      )
  unfolding remove_at close_gap
  inner_run obj i a b e lt room =
      let t : ltb i (a.length - 1) ≡ true = ground arith in
      let z : (a.length - 1 == 0) ≡ false = ground arith in
      let move = memmove-in b i b (i + 1) (a.length - 1 - i) (omega arith) (omega arith) in
      rw (z, t, e, move, remove_at, close_gap) refl

  remove_at-Yields :
      (obj : A) (i : ℕ) (a : SimpleArray A)
      → IsValid a
      → i < a.length
      → Yields (remove_at obj i a) (some obj) (without (view a) i)
  remove_at-Yields obj i a v lt =
      let (b, there, room) = block_there a v (omega arith) in
      elim (Bool-cases (ltb (i + 1) a.length)) [
        | inr f ↦
            let last : a.length ≡ i + 1 = omega (arith, ltb_false→le (i + 1) a.length f) in
            subst (λ m. Yields m (some obj) (without (view a) i)) (sym (last_run obj i a last))
              (record {
                returns = refl;
                valid = shortened-IsValid a v;
                shows =
                    view-shortened a b there
                    ∙ ap (slice b.cell 0) {y = i} (omega (arith, last))
                    ∙ sym (append-nil (slice b.cell 0 i))
                    ∙ ap (λ l. slice b.cell 0 i ++ l)
                        (ap (slice b.cell (i + 1)) {x = 0} (omega (arith, last)))
                    ∙ view-without a b i there lt;
              })
        | inl t ↦
            let inner = ltb→lt (i + 1) a.length t in
            subst (λ m. Yields m (some obj) (without (view a) i))
              (sym (inner_run obj i a b there inner room))
              (record {
                returns = refl;
                valid = record {
                  grows = v.grows;
                  room = v.room;
                  multiple = v.multiple;
                  holds = omega (arith, v.holds);
                  inside = rw there at v.inside;
                };
                shows =
                    ap (slice (moved b.cell b.cell i (i + 1) (a.length - 1 - i)) 0)
                      {y = i + (a.length - 1 - i)} (omega (arith, lt))
                    ∙ closed_from_start b.cell i (a.length - 1 - i)
                    ∙ view-without a b i there lt;
              })
      ]

  -- What a deletion of the element at a place does: it takes it out and returns it, or leaves the
  -- array as it was and returns NULL where there is none.
  abbrev pub Removes : Method A (Option A) → SimpleArray A → A → Option ℕ → Type ℓ
  Removes r a obj none = r ≡ (ok none, a)
  Removes r a obj (some i) = Yields r (some obj) (without (view a) i)

  found-Removes :
      (obj : A) (a : SimpleArray A) (place : Option ℕ) (found : Outcome (Option ℕ))
      → IsValid a
      → found ≡ ok place
      → ((i : ℕ) → place ≡ some i → i < a.length)
      → Removes (delete_found found obj a) a obj place
  unfolding delete_found
  found-Removes obj a none found v e lt = rw (e, delete_found) refl
  found-Removes obj a (some i) found v e lt =
      rw (e, delete_found) (remove_at-Yields obj i a v (lt i refl))

module _ {ℓ} {A : Type ℓ} (same : A → A → Bool) (obj : A) where
  first_place-lt : (xs : List A) (i : ℕ) → first_place same obj xs ≡ some i → i < length xs
  first_place-lt [] i e = absurd (ground (arith, e))
  first_place-lt (x ∷ xs) i e = elim (Bool-cases (same x obj)) [
    | inl t ↦ let e' : some 0 ≡ some i = rw t at e in let z : 0 ≡ i = cc in omega (arith, z)
    | inr f ↦ go (first_place same obj xs) (first_place-lt xs) (rw f at e)
  ]
    where
      go :
          (o : Option ℕ)
          → ((k : ℕ) → o ≡ some k → k < length xs)
          → later o ≡ some i
          → i < suc (length xs)
      go none h e = absurd (ground (arith, e))
      go (some k) h e = let s : suc k ≡ i = cc in omega (arith, s, h k refl)

  last_place-lt : (xs : List A) (i : ℕ) → last_place same obj xs ≡ some i → i < length xs
  last_place-lt [] i e = absurd (ground (arith, e))
  last_place-lt (x ∷ xs) i e = go (last_place same obj xs) (last_place-lt xs) (same x obj) e
    where
      go :
          (o : Option ℕ)
          → ((k : ℕ) → o ≡ some k → k < length xs)
          → (t : Bool)
          → elim o [ none ↦ if t then some 0 else none | some k ↦ some (suc k) ] ≡ some i
          → i < suc (length xs)
      go none h true e = let z : 0 ≡ i = cc in omega (arith, z)
      go none h false e = absurd (ground (arith, e))
      go (some k) h t e = let s : suc k ≡ i = cc in omega (arith, s, h k refl)

  -- `simple_array_delete` takes the first element that is the pointer out of a valid array, leaves the
  -- others in order and the array valid, and returns the pointer; without one it returns NULL and the
  -- array stays.
  pub simple_array_delete-Removes :
      (a : SimpleArray A)
      → IsValid a
      → Removes (simple_array_delete same obj a) a obj (first_place same obj (view a))
  unfolding simple_array_delete
  simple_array_delete-Removes a v =
      found-Removes obj a (first_place same obj (view a)) _ v
        (simple_array_index-first_place same obj a v)
        (λ i e. omega (arith, length-view a v, first_place-lt (view a) i e))

  -- `simple_array_rdelete` does so with the last one.
  pub simple_array_rdelete-Removes :
      (a : SimpleArray A)
      → IsValid a
      → Removes (simple_array_rdelete same obj a) a obj (last_place same obj (view a))
  unfolding simple_array_rdelete
  simple_array_rdelete-Removes a v =
      found-Removes obj a (last_place same obj (view a)) _ v
        (simple_array_rindex-last_place same obj a v)
        (λ i e. omega (arith, length-view a v, last_place-lt (view a) i e))
