-- ===== src/Hooks/Run.antt =====
-- Running a hook runs its procedures once each, in the order in which they were added.
use fth.Base.{
  ℕ, zero, suc, ◌+◌, ◌≤◌, ◌<◌, ◌≡◌, refl, sym, ap, ◌∙◌, ◌⊎◌, inl, inr, true, ltb, List, [], ◌∷◌,
  ◌++◌, pos, length, Outcome, Exception, ok, throw, fault, out_of_range, and_then, some, arith,
}
use mathlib.Core.Path.{subst, ap₂}
use mathlib.Core.List.{append_assoc, append-nil}
use fth.Memory.{Block, update}
use fth.Memory.Slice.{slice, slice_snoc}
use fth.Memory.Writes.{store-in, slice-update_outside, update_eq}
use fth.Array.{FArray, max_seq_length}
use fth.Array.Valid as Buffer
use fth.Array as Arrays
use fth.Array.Access.{make_array_len}
use fth.Array.Access.Make.{first_buf_length}
use fth.Array.Access.Fresh.{make_array_len-Fresh}
use fth.Simple.{items, view, simple_array_ref}
use fth.Simple.Valid.{IsValid, block_there, cell_at-some, length-view}
use fth.Hooks.{Procs, FHook, fast_set, apply_at, apply_each, hook_apply}

-- one result more in front of the others
abbrev pub prefixed {ℓ κ} : {A : Type ℓ} {S : Type κ} → A → List A → S → Outcome (List A) × S
prefixed x xs w = (ok (x ∷ xs), w)

module _ {P A S : Type 0} (apply : P → S → Outcome A × S) where
  -- the procedures one after the other, up to the first that does not return
  unfoldable pub run_all : List P → S → Outcome (List A) × S
  unfolding and_then
  run_all [] w = (ok [], w)
  run_all (p ∷ ps) w = and_then (apply p w) (λ x w'. and_then (run_all ps w') (prefixed x))

-- what the array of results says of the results: those of `before` stand in front of them
abbrev pub Collects {ℓ} : {A : Type ℓ} → Outcome (FArray A) → Outcome (List A) → List A → Type ℓ
Collects r (ok xs) before = (c : _) × (r ≡ ok c) × Buffer.IsValid c × (Arrays.view c ≡ before ++ xs)
Collects r (throw e) before = r ≡ throw e
Collects r fault before = r ≡ fault

-- The state is the same, and the array holds the results.
abbrev pub Follows {ℓ κ} :
    {A : Type ℓ} {S : Type κ}
    → Outcome (FArray A) × S
    → Outcome (List A) × S
    → List A
    → Type (ℓ ⊔ κ)
Follows r spec before = (r.1 ≡ spec.1) × Collects r.0 spec.0 before

Follows-prefixed {ℓ κ} :
    {A : Type ℓ} {S : Type κ} (r : Outcome (FArray A) × S) (x : A) (spec : Outcome (List A) × S)
    (before : List A)
    → Follows r spec (before ++ x ∷ [])
    → Follows r (and_then spec (prefixed x)) before
unfolding and_then
Follows-prefixed r x (ok xs, w) before (s, (c, run, v, e)) =
    (s, (c, run, v, e ∙ append_assoc before (x ∷ []) xs))
Follows-prefixed r x (throw e, w) before h = h
Follows-prefixed r x (fault, w) before h = h

module _ {W P A S : Type 0} (K : Procs W P A S) (args : FArray A) (hook : FHook P) where
  pub apply_at-run :
      (b : Block P) (i : ℕ) (w : S)
      → hook.procs.cells ≡ some b
      → i < hook.procs.length
      → hook.procs.length ≤ b.size
      → apply_at K hook args i w ≡ K.apply (b.cell i) args w
  unfolding apply_at simple_array_ref
  apply_at-run b i w e lt le =
      let t : ltb i hook.procs.length ≡ true = ground arith in
      let here = cell_at-some hook.procs b i e (omega arith) in
      rw (t, here, apply_at, simple_array_ref) refl

  put_result : FArray A → ℕ → A → FArray A
  put_result ret i x = record ret {
    buf = record ret.buf { cell = update ret.buf.cell (ret.data_offset + i) x };
    changed_p = true;
  }

  fast_set-run :
      (i : ℕ) (x : A) (ret : FArray A)
      → ret.data_offset + i < ret.buf.size
      → fast_set K i x ret ≡ ok (put_result ret i x)
  unfolding fast_set put_result
  fast_set-run i x ret lt =
      let put = store-in ret.buf (ret.data_offset + i) x lt in rw (put, fast_set) refl

  each_ok :
      (i n : ℕ) (ret : FArray A) (w w' : S) (x : A)
      → apply_at K hook args i w ≡ (ok x, w')
      → ret.data_offset + i < ret.buf.size
      → apply_each K hook args i (suc n) ret w
        ≡ apply_each K hook args (suc i) n (put_result ret i x) w'
  unfolding apply_each and_then
  each_ok i n ret w w' x e lt =
      ap
        (λ r. and_then r (λ res v.
          and_then (fast_set K i res ret, v) (λ ret' v'. apply_each K hook args (suc i) n ret' v')))
        e
      ∙ ap (λ o. and_then (o, w') (λ ret' v'. apply_each K hook args (suc i) n ret' v'))
          (fast_set-run i x ret lt)

  each_throw :
      (i n : ℕ) (ret : FArray A) (w w' : S) (x : Exception)
      → apply_at K hook args i w ≡ (throw x, w')
      → apply_each K hook args i (suc n) ret w ≡ (throw x, w')
  unfolding apply_each and_then
  each_throw i n ret w w' x e =
      ap
        (λ r. and_then r (λ res v.
          and_then (fast_set K i res ret, v) (λ ret' v'. apply_each K hook args (suc i) n ret' v')))
        e

  each_fault :
      (i n : ℕ) (ret : FArray A) (w w' : S)
      → apply_at K hook args i w ≡ (fault, w')
      → apply_each K hook args i (suc n) ret w ≡ (fault, w')
  unfolding apply_each and_then
  each_fault i n ret w w' e =
      ap
        (λ r. and_then r (λ res v.
          and_then (fast_set K i res ret, v) (λ ret' v'. apply_each K hook args (suc i) n ret' v')))
        e

  put_result-Follows :
      (ret : FArray A) (i : ℕ) (x : A) (before : List A)
      → Buffer.IsValid ret
      → slice ret.buf.cell ret.data_offset i ≡ before
      → Buffer.IsValid (put_result ret i x)
        × ((put_result ret i x).length ≡ ret.length)
        × (slice (put_result ret i x).buf.cell (put_result ret i x).data_offset (i + 1)
            ≡ before ++ x ∷ [])
  unfolding put_result
  put_result-Follows ret i x before v e =
      let f = update ret.buf.cell (ret.data_offset + i) x in
      (
        record { sized = v.sized; aimed = v.aimed; fits = v.fits },
        refl,
        slice_snoc f ret.data_offset i
            ∙ ap₂ (λ l y. l ++ y ∷ [])
                (slice-update_outside ret.buf.cell (ret.data_offset + i) x ret.data_offset i
                    (inr (omega arith))
                  ∙ e)
                (update_eq ret.buf.cell (ret.data_offset + i) x (ret.data_offset + i) refl),
      )

  each_done : (i : ℕ) (ret : FArray A) (w : S) → apply_each K hook args i 0 ret w ≡ (ok ret, w)
  unfolding apply_each
  each_done i ret w = refl

  -- what the procedures do to the arguments
  abbrev applied : P → S → Outcome A × S
  applied p w = K.apply p args w

  pub all_done : (w : S) → run_all applied [] w ≡ (ok [], w)
  unfolding run_all
  all_done w = refl

  all_next :
      (p : P) (ps : List P) (w : S) (r : Outcome A × S)
      → K.apply p args w ≡ r
      → run_all applied (p ∷ ps) w
        ≡ and_then r (λ x w'. and_then (run_all applied ps w') (prefixed x))
  unfolding run_all
  all_next p ps w r e =
      ap (λ r. and_then r (λ x w'. and_then (run_all applied ps w') (prefixed x))) e

  apply_each-Follows :
      (b : Block P) (i n : ℕ) (ret : FArray A) (w : S) (before : List A)
      → hook.procs.cells ≡ some b
      → hook.procs.length ≤ b.size
      → i + n ≡ hook.procs.length
      → Buffer.IsValid ret
      → ret.length ≡ i + n
      → slice ret.buf.cell ret.data_offset i ≡ before
      → Follows (apply_each K hook args i n ret w) (run_all applied (slice b.cell i n) w) before
  unfolding and_then
  apply_each-Follows b i zero ret w before e le count v len s =
      subst (λ q. Follows (apply_each K hook args i 0 ret w) q before) (sym (all_done w))
        (subst (λ r. Follows r (ok [], w) before) (sym (each_done i ret w))
          (
            refl,
            (
              ret,
              refl,
              v,
              ap (slice ret.buf.cell ret.data_offset) {y = i} (omega (arith, len))
                  ∙ s
                  ∙ sym (append-nil before),
            ),
          ))
  apply_each-Follows b i (suc n) ret w before e le count v len s =
      go (K.apply (b.cell i) args w) refl (λ x w'.
        let (v', len', s') = put_result-Follows ret i x before v s in
        apply_each-Follows b (suc i) n (put_result ret i x) w' (before ++ x ∷ []) e le
          (omega (arith, count)) v' (omega (arith, len, len'))
          (ap (slice (put_result ret i x).buf.cell (put_result ret i x).data_offset) {x = suc i}
              {y = i + 1} (omega arith)
            ∙ s'))
    where
      go :
          (r : Outcome A × S)
          → K.apply (b.cell i) args w ≡ r
          → ((x : A) (w' : S)
              → Follows
                  (apply_each K hook args (suc i) n (put_result ret i x) w')
                  (run_all applied (slice b.cell (suc i) n) w')
                  (before ++ x ∷ []))
          → Follows
              (apply_each K hook args i (suc n) ret w)
              (run_all applied (slice b.cell i (suc n)) w)
              before
      go (ok x, w') run ih =
          let here = apply_at-run b i w e (omega (arith, count)) le ∙ run in
          subst (λ q. Follows (apply_each K hook args i (suc n) ret w) q before)
            (sym (all_next (b.cell i) (slice b.cell (suc i) n) w (ok x, w') run))
            (subst
              (λ r.
                Follows r (and_then (run_all applied (slice b.cell (suc i) n) w') (prefixed x))
                  before)
              (sym (each_ok i n ret w w' x here (omega (arith, v.sized, v.aimed, v.fits, len))))
              (Follows-prefixed (apply_each K hook args (suc i) n (put_result ret i x) w') x
                (run_all applied (slice b.cell (suc i) n) w') before (ih x w')))
      go (throw x, w') run ih =
          let here = apply_at-run b i w e (omega (arith, count)) le ∙ run in
          subst (λ q. Follows (apply_each K hook args i (suc n) ret w) q before)
            (sym (all_next (b.cell i) (slice b.cell (suc i) n) w (throw x, w') run))
            (subst (λ r. Follows r (throw x, w') before) (sym (each_throw i n ret w w' x here))
              (refl, refl))
      go (fault, w') run ih =
          let here = apply_at-run b i w e (omega (arith, count)) le ∙ run in
          subst (λ q. Follows (apply_each K hook args i (suc n) ret w) q before)
            (sym (all_next (b.cell i) (slice b.cell (suc i) n) w (fault, w') run))
            (subst (λ r. Follows r (fault, w') before) (sym (each_fault i n ret w w' here))
              (refl, refl))

  apply_run :
      (z : A) (ret : FArray A) (w : S)
      → make_array_len z (pos hook.procs.length) ≡ ok ret
      → hook_apply K z args hook w ≡ apply_each K hook args 0 hook.procs.length ret w
  unfolding hook_apply and_then
  apply_run z ret w e =
      ap (λ o. and_then (o, w) (λ ret' v. apply_each K hook args 0 hook.procs.length ret' v)) e

  apply_refuses :
      (z : A) (w : S)
      → make_array_len z (pos hook.procs.length) ≡ throw out_of_range
      → hook_apply K z args hook w ≡ (throw out_of_range, w)
  unfolding hook_apply and_then
  apply_refuses z w e =
      ap (λ o. and_then (o, w) (λ ret' v. apply_each K hook args 0 hook.procs.length ret' v)) e

  results-Follows :
      (ret : FArray A) (w : S)
      → IsValid hook.procs
      → Buffer.IsValid ret
      → ret.length ≡ hook.procs.length
      → Follows
          (apply_each K hook args 0 hook.procs.length ret w)
          (run_all applied (view hook.procs) w)
          []
  results-Follows ret w v u len = by_length hook.procs.length refl
    where
      nothing : (xs : List P) → length xs ≡ 0 → xs ≡ []
      nothing [] e = refl
      nothing (x ∷ xs) e = absurd (omega (arith, e))

      by_length :
          (n : ℕ)
          → hook.procs.length ≡ n
          → Follows
              (apply_each K hook args 0 hook.procs.length ret w)
              (run_all applied (view hook.procs) w)
              []
      by_length zero e =
          subst
            (λ ps.
              Follows (apply_each K hook args 0 hook.procs.length ret w) (run_all applied ps w) [])
            (sym (nothing (view hook.procs) (length-view hook.procs v ∙ e)))
            (subst (λ n. Follows (apply_each K hook args 0 n ret w) (run_all applied [] w) [])
              (sym e)
              (subst (λ q. Follows (apply_each K hook args 0 0 ret w) q []) (sym (all_done w))
                (subst (λ r. Follows r (ok [], w) []) (sym (each_done 0 ret w))
                  (
                    refl,
                    (ret, refl, u, ap (slice ret.buf.cell ret.data_offset) {y = 0} (len ∙ e)),
                  ))))
      by_length (suc n) e =
          let (b, there, room) = block_there hook.procs v (omega (arith, e)) in
          subst
            (λ c.
              Follows (apply_each K hook args 0 hook.procs.length ret w)
                (run_all applied (items c hook.procs.length) w) [])
            (sym there)
            (apply_each-Follows b 0 hook.procs.length ret w [] there room (omega arith) u
              (omega (arith, len)) refl)

  -- `hook_apply` runs the procedures of a hook with a valid simple array once each, in the order in
  -- which they were added, up to the first that does not return, and makes a valid array of their
  -- results in that order; or it raises OUT-OF-RANGE before the first, because the array of results
  -- would be too long. This holds for any number of arguments, which is not compared with the arity of
  -- the hook.
  pub hook_apply-Follows :
      (z : A) (w : S)
      → IsValid hook.procs
      → Follows (hook_apply K z args hook w) (run_all applied (view hook.procs) w) []
        ⊎ ((hook_apply K z args hook w ≡ (throw out_of_range, w))
            × (max_seq_length < first_buf_length hook.procs.length))
  hook_apply-Follows z w v = elim (make_array_len-Fresh z hook.procs.length) [
    | inr (run, long) ↦ inr (apply_refuses z w run, long)
    | inl (ret, run, f) ↦ inl (
        subst (λ r. Follows r (run_all applied (view hook.procs) w) [])
          (sym (apply_run z ret w run))
          (results-Follows ret w v
            (record {
              sized = f.sized ∙ sym f.buf_length;
              aimed = f.aimed ∙ sym f.top;
              fits = omega (arith, f.top, f.len, f.buf_length);
            })
            f.len))
  ]
