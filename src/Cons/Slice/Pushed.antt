-- ===== src/Cons/Slice/Pushed.antt =====
-- The loop of list-slice, which pushes the kept elements to a list.
use fth.Base.{
  ℕ, zero, suc, ◌+◌, ◌≤◌, ◌<◌, ◌≡◌, refl, sym, ap, ◌∙◌, inl, inr, Bool, true, false, Bool-cases,
  List, [], ◌∷◌, ◌++◌, length, length-append, Outcome, ok, throw, out_of_range, arith,
}
use mathlib.Core.List.{append_assoc, append-nil}
use mathlib.Core.Path.{subst}
use fth.Memory.Slice.{slice, length-slice}
use fth.Memory.Writes.{load-in}
use fth.Array.{FArray, view, max_seq_length, new_seq_length}
use fth.Array.Ends.{array_push}
use fth.Array.Valid.{IsValid}
use fth.Array.Ends.Push.{array_push-Yields, array_push-top}
use fth.Cons.Front.{Lists}
use fth.Cons.Slice.Kept.{kept}
use fth.Cons.Slice.{push_outside}

module _ {ℓ} {A : Type ℓ} where
  push_skip :
      (fresh : ℕ → A) (keep : ℕ → Bool) (i n : ℕ) (a ls : FArray A)
      → keep i ≡ false
      → push_outside fresh keep i (suc n) a ls ≡ push_outside fresh keep (i + 1) n a ls
  unfolding push_outside
  push_skip fresh keep i n a ls f = rw (f, push_outside) refl

  push_next :
      (fresh : ℕ → A) (keep : ℕ → Bool) (i n : ℕ) (a ls : FArray A)
      → keep i ≡ true
      → a.data_offset + i < a.buf.size
      → (array_push fresh (a.buf.cell (a.data_offset + i)) ls).0 ≡ ok tt
      → push_outside fresh keep i (suc n) a ls
        ≡ push_outside fresh keep
            (i + 1)
            n
            a
            (array_push fresh (a.buf.cell (a.data_offset + i)) ls).1
  unfolding push_outside
  push_next fresh keep i n a ls t lt run =
      rw (t, load-in a.buf (a.data_offset + i) lt, run, push_outside) refl

  push_raise :
      (fresh : ℕ → A) (keep : ℕ → Bool) (i n : ℕ) (a ls : FArray A)
      → keep i ≡ true
      → a.data_offset + i < a.buf.size
      → (array_push fresh (a.buf.cell (a.data_offset + i)) ls).0 ≡ throw out_of_range
      → push_outside fresh keep i (suc n) a ls ≡ throw out_of_range
  unfolding push_outside
  push_raise fresh keep i n a ls t lt run =
      rw (t, load-in a.buf (a.data_offset + i) lt, run, push_outside) refl

  kept_next :
      (keep : ℕ → Bool) (f : ℕ → A) (o i n : ℕ)
      → keep i ≡ true
      → kept keep i (slice f (o + i) (suc n))
        ≡ f (o + i) ∷ kept keep (i + 1) (slice f (o + (i + 1)) n)
  kept_next keep f o i n t =
      rw t (ap (λ k. f (o + i) ∷ kept keep (i + 1) (slice f k n)) {y = o + (i + 1)} (omega arith))

  kept_skip :
      (keep : ℕ → Bool) (f : ℕ → A) (o i n : ℕ)
      → keep i ≡ false
      → kept keep i (slice f (o + i) (suc n)) ≡ kept keep (i + 1) (slice f (o + (i + 1)) n)
  kept_skip keep f o i n t =
      rw t (ap (λ k. kept keep (i + 1) (slice f k n)) {y = o + (i + 1)} (omega arith))

  -- The buffer for `top` cells and the elements behind them would be longer than the limit.
  abbrev pub IsTooLong : ℕ → List A → Type 0
  IsTooLong top xs = max_seq_length < new_seq_length (top + length xs)

  pub transport-Lists :
      {r r' : Outcome (FArray A)} {xs ys : List A} (top : ℕ)
      → r ≡ r'
      → xs ≡ ys
      → Lists r' ys (IsTooLong top ys)
      → Lists r xs (IsTooLong top xs)
  transport-Lists {r' = r'} {xs = xs} top e d l =
      subst (λ o. Lists o xs (IsTooLong top xs)) (sym e)
        (subst (λ l'. Lists r' l' (IsTooLong top l')) (sym d) l)

  longer-IsTooLong :
      (top n : ℕ) (xs ys : List A)
      → length xs ≡ n
      → max_seq_length < new_seq_length (top + (n + 1))
      → 0 < length ys
      → IsTooLong top (xs ++ ys)
  longer-IsTooLong top n xs ys e long some_left =
      omega (arith, e, long, some_left, length-append xs ys)

  pub push_outside-Lists :
      (fresh : ℕ → A) (keep : ℕ → Bool) (i n top : ℕ) (a ls : FArray A)
      → a.data_offset + i + n ≤ a.buf.size
      → IsValid ls
      → ls.top ≡ top
      → Lists
          (push_outside fresh keep i n a ls)
          (view ls ++ kept keep i (slice a.buf.cell (a.data_offset + i) n))
          (IsTooLong top (view ls ++ kept keep i (slice a.buf.cell (a.data_offset + i) n)))
  unfolding push_outside
  push_outside-Lists fresh keep i zero top a ls fits v e = inl (ls, refl, v, sym (append-nil _))
  push_outside-Lists fresh keep i (suc n) top a ls fits v e = elim (Bool-cases (keep i)) [
    | inr f ↦
        transport-Lists top (push_skip fresh keep i n a ls f)
          (ap (λ l. view ls ++ l) (kept_skip keep a.buf.cell a.data_offset i n f))
          (push_outside-Lists fresh keep (i + 1) n top a ls (omega (arith, fits)) v e)
    | inl t ↦
        let x = a.buf.cell (a.data_offset + i) in
        let lt : a.data_offset + i < a.buf.size = omega (arith, fits) in
        let next = kept_next keep a.buf.cell a.data_offset i n t in
        elim (array_push-Yields fresh x ls v) [
          | inl y ↦
              transport-Lists top (push_next fresh keep i n a ls t lt y.returns)
                (ap (λ l. view ls ++ l) next
                  ∙ sym (append_assoc (view ls) (x ∷ []) _)
                  ∙ ap (λ l. l ++ kept keep (i + 1) (slice a.buf.cell (a.data_offset + (i + 1)) n))
                      (sym y.holds))
                (push_outside-Lists fresh keep (i + 1) n top a (array_push fresh x ls).1
                  (omega (arith, fits)) y.valid (array_push-top fresh x ls v ∙ e))
          | inr (raised, short, long) ↦ inr (
            push_raise fresh keep i n a ls t lt (ap (λ r. r.0) raised),
            longer-IsTooLong top ls.length (view ls) _
                (length-slice ls.buf.cell ls.data_offset ls.length)
                (subst (λ k. max_seq_length < new_seq_length (k + (ls.length + 1))) e long)
                (omega (arith, ap length next)),
          )
        ]
  ]
