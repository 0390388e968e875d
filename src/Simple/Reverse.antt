-- ===== src/Simple/Reverse.antt =====
-- make_simple_array_var and simple_array_reverse push one element after the other.
use fth.Base.{
  ℕ, zero, suc, ◌+◌, ◌≤◌, ◌<◌, ◌≡◌, refl, sym, ap, ◌∙◌, true, ltb, List, [], ◌∷◌, ◌++◌, reverse, ℤ,
  pos, negsuc, length, ok, some, arith,
}
use mathlib.Core.Path.{subst}
use mathlib.Core.List.{append_assoc, append-nil, reverse-append}
use fth.Memory.{Block}
use fth.Memory.Slice.{slice, slice_snoc}
use fth.Simple.{
  SimpleArray, view, items, cell_at, make_simple_array, simple_array_push, push_each,
  make_simple_array_var, push_back_from, simple_array_reverse,
}
use fth.Simple.Valid.{IsValid, Yields, block_there, cell_at-some, make_simple_array-IsValid}
use fth.Simple.Push.{simple_array_push-Yields}

module _ {ℓ} {A : Type ℓ} where
  each_step :
      (fresh : ℕ → A) (x : A) (xs : List A) (a : SimpleArray A)
      → (simple_array_push fresh x a).0 ≡ ok tt
      → push_each fresh (x ∷ xs) a ≡ push_each fresh xs (simple_array_push fresh x a).1
  unfolding push_each
  each_step fresh x xs a e = rw (e, push_each) refl

  each_done : (fresh : ℕ → A) (a : SimpleArray A) → push_each fresh [] a ≡ (ok tt, a)
  unfolding push_each
  each_done fresh a = refl

  push_each-Yields :
      (fresh : ℕ → A) (xs : List A) (a : SimpleArray A)
      → IsValid a
      → Yields (push_each fresh xs a) tt (view a ++ xs)
  push_each-Yields fresh [] a v =
      subst (λ r. Yields r tt (view a ++ [])) (sym (each_done fresh a))
        (record { returns = refl; valid = v; shows = sym (append-nil (view a)) })
  push_each-Yields fresh (x ∷ xs) a v =
      let y = simple_array_push-Yields fresh x a v in
      let rest = push_each-Yields fresh xs (simple_array_push fresh x a).1 y.valid in
      subst (λ r. Yields r tt (view a ++ x ∷ xs)) (sym (each_step fresh x xs a y.returns))
        (subst (Yields (push_each fresh xs (simple_array_push fresh x a).1) tt)
          (ap (λ l. l ++ xs) y.shows ∙ append_assoc (view a) (x ∷ []) xs) rest)

  abbrev made : ℤ → SimpleArray A
  made n = make_simple_array n

  fresh_view : (n : ℤ) → view (made n) ≡ []
  unfolding make_simple_array
  fresh_view (pos n) = refl
  fresh_view (negsuc n) = refl

  -- `make_simple_array_var` makes a valid array of its arguments, in order.
  pub make_simple_array_var-Yields :
      (fresh : ℕ → A) (args : List A) → Yields (make_simple_array_var fresh args) tt args
  unfolding make_simple_array_var
  make_simple_array_var-Yields fresh args =
      let n = pos (length args) in
      subst (Yields (push_each fresh args (made n)) tt) (ap (λ l. l ++ args) (fresh_view n))
        (push_each-Yields fresh args (made n) (make_simple_array-IsValid n))

  back_step :
      (fresh : ℕ → A) (a : SimpleArray A) (i : ℕ) (new : SimpleArray A) (x : A)
      → cell_at a i ≡ some x
      → (simple_array_push fresh x new).0 ≡ ok tt
      → push_back_from fresh a (suc i) new
        ≡ push_back_from fresh a i (simple_array_push fresh x new).1
  unfolding push_back_from
  back_step fresh a i new x e f = rw (e, f, push_back_from) refl

  back_done : (fresh : ℕ → A) (a new : SimpleArray A) → push_back_from fresh a 0 new ≡ (ok tt, new)
  unfolding push_back_from
  back_done fresh a new = refl

  reversed_snoc : (f : ℕ → A) (i : ℕ) → f i ∷ reverse (slice f 0 i) ≡ reverse (slice f 0 (suc i))
  reversed_snoc f i = sym (
      ap (λ n. reverse (slice f 0 n)) {x = suc i} {y = i + 1} (omega arith)
      ∙ ap reverse (slice_snoc f 0 i)
      ∙ reverse-append (slice f 0 i) (f (0 + i) ∷ [])
      ∙ ap (λ k. f k ∷ reverse (slice f 0 i)) {y = i} (omega arith))

  push_back_from-Yields :
      (fresh : ℕ → A) (a : SimpleArray A) (b : Block A) (n : ℕ) (new : SimpleArray A)
      → a.cells ≡ some b
      → n ≤ b.size
      → IsValid new
      → Yields (push_back_from fresh a n new) tt (view new ++ reverse (slice b.cell 0 n))
  push_back_from-Yields fresh a b zero new e le v =
      subst (λ r. Yields r tt (view new ++ [])) (sym (back_done fresh a new))
        (record { returns = refl; valid = v; shows = sym (append-nil (view new)) })
  push_back_from-Yields fresh a b (suc i) new e le v =
      let x = b.cell i in
      let y = simple_array_push-Yields fresh x new v in
      let rest =
        push_back_from-Yields fresh a b i (simple_array_push fresh x new).1 e (omega (arith, le))
          y.valid in
      subst (λ r. Yields r tt (view new ++ reverse (slice b.cell 0 (suc i))))
        (sym (back_step fresh a i new x (cell_at-some a b i e (omega (arith, le))) y.returns))
        (subst (Yields (push_back_from fresh a i (simple_array_push fresh x new).1) tt)
          (ap (λ l. l ++ reverse (slice b.cell 0 i)) y.shows
            ∙ append_assoc (view new) (x ∷ []) (reverse (slice b.cell 0 i))
            ∙ ap (λ l. view new ++ l) (reversed_snoc b.cell i))
          rest)

  reverse_run :
      (fresh : ℕ → A) (a : SimpleArray A)
      → ltb 0 a.length ≡ true
      → (push_back_from fresh a a.length (make_simple_array (pos a.incr))).0 ≡ ok tt
      → simple_array_reverse fresh a
        ≡ ok (some (push_back_from fresh a a.length (make_simple_array (pos a.incr))).1)
  unfolding simple_array_reverse
  reverse_run fresh a t e = rw (t, e, simple_array_reverse) refl

  -- `simple_array_reverse` of a valid array that is not empty makes a valid array of its elements in
  -- reverse order.
  pub simple_array_reverse-IsValid :
      (fresh : ℕ → A) (a : SimpleArray A)
      → IsValid a
      → 0 < a.length
      → (r : SimpleArray A) × (simple_array_reverse fresh a ≡ ok (some r))
        × IsValid r
        × (view r ≡ reverse (view a))
  simple_array_reverse-IsValid fresh a v some_there =
      let (b, there, room) = block_there a v some_there in
      let new = made (pos a.incr) in
      let y =
        push_back_from-Yields fresh a b a.length new there room
          (make_simple_array-IsValid (pos a.incr)) in
      (
        (push_back_from fresh a a.length new).1,
        reverse_run fresh a (ground arith) y.returns,
        y.valid,
        y.shows
            ∙ ap (λ l. l ++ reverse (slice b.cell 0 a.length)) (fresh_view (pos a.incr))
            ∙ ap (λ c. reverse (items c a.length)) (sym there),
      )
