-- ===== src/Hooks/Test.antt =====
-- fth_run_hook and fth_run_hook_bool from the list of their arguments on.
use fth.Base.{
  ℕ, zero, suc, ◌+◌, ◌≤◌, ◌<◌, ◌≡◌, refl, sym, ap, ◌∙◌, ◌⊎◌, inl, inr, Bool, true, false, ltb,
  ltb→lt, ltb_false→le, if◌then◌else◌, List, [], ◌∷◌, length, Outcome, ok, throw, fault,
  out_of_range, bad_arity, and_then, some, arith, Bool-cases,
}
use fth.Memory.{Block}
use fth.Memory.Slice.{slice}
use fth.Array as Arrays
use fth.Array.{FArray, max_seq_length}
use fth.Array.Valid as Buffer
use fth.Array.Access.Make.{first_buf_length, make_array_var-Makes}
use fth.Simple.{items, view}
use fth.Simple.Valid.{IsValid, block_there, length-view}
use fth.Hooks.{Procs, FHook, test_each, take_args, run_hook_bool}
use fth.Hooks.Run.{prefixed, run_all, apply_at-run}

-- some result is `#f`
abbrev pub any_false {ℓ} : {A : Type ℓ} → (A → Bool) → List A → Bool
any_false is_false [] = false
any_false is_false (x ∷ xs) = let rest = any_false is_false xs in if is_false x then true else rest

module _ {W P A S : Type 0} (K : Procs W P A S) (is_false : A → Bool) (args : FArray A)
    (hook : FHook P) where
  verdict : Bool → List A → S → Outcome Bool × S
  verdict ret rs w = (ok (if any_false is_false rs then false else ret), w)

  verdict-prefixed :
      (ret : Bool) (x : A) (spec : Outcome (List A) × S)
      → and_then spec (verdict (if is_false x then false else ret))
        ≡ and_then (and_then spec (prefixed x)) (verdict ret)
  unfolding and_then verdict
  verdict-prefixed ret x (ok xs, w) = ap (λ f. (ok f, w)) (branch (is_false x))
    where
      branch :
          (t : Bool)
          → (if any_false is_false xs then false else if t then false else ret)
            ≡ (if (if t then true else any_false is_false xs) then false else ret)
      branch true = flat (any_false is_false xs)
        where
          flat : (f : Bool) → (if f then false else false) ≡ false
          flat true = refl
          flat false = refl
      branch false = refl
  verdict-prefixed ret x (throw e, w) = refl
  verdict-prefixed ret x (fault, w) = refl

  test_each-run_all :
      (b : Block P) (i n : ℕ) (ret : Bool) (w : S)
      → hook.procs.cells ≡ some b
      → hook.procs.length ≤ b.size
      → i + n ≡ hook.procs.length
      → test_each K is_false hook args i n ret w
        ≡ and_then (run_all (λ p w. K.apply p args w) (slice b.cell i n) w) (verdict ret)
  unfolding test_each run_all and_then verdict
  test_each-run_all b i zero ret w e le count = refl
  test_each-run_all b i (suc n) ret w e le count =
      ap
        (λ r. and_then r (λ res w'.
          test_each K is_false hook args (suc i) n (if is_false res then false else ret) w'))
        (apply_at-run K args hook b i w e (omega (arith, count)) le)
      ∙ go (K.apply (b.cell i) args w) (λ x w'.
        test_each-run_all b (suc i) n (if is_false x then false else ret) w' e le
          (omega (arith, count)))
    where
      go :
          (r : Outcome A × S)
          → ((x : A) (w' : S)
              → test_each K is_false hook args (suc i) n (if is_false x then false else ret) w'
                ≡ and_then
                    (run_all (λ p w. K.apply p args w) (slice b.cell (suc i) n) w')
                    (verdict (if is_false x then false else ret)))
          → and_then r (λ res w'.
            test_each K is_false hook args (suc i) n (if is_false res then false else ret) w')
            ≡ and_then
                (and_then r (λ x w'.
                  and_then
                    (run_all (λ p w. K.apply p args w) (slice b.cell (suc i) n) w')
                    (prefixed x)))
                (verdict ret)
      go (ok x, w') ih =
          ih x w'
          ∙ verdict-prefixed ret x (run_all (λ p w. K.apply p args w) (slice b.cell (suc i) n) w')
      go (throw x, w') ih = refl
      go (fault, w') ih = refl

  nothing : (xs : List P) → length xs ≡ 0 → xs ≡ []
  nothing [] e = refl
  nothing (x ∷ xs) e = absurd (omega (arith, e))

  test_none :
      (ret : Bool) (w : S)
      → test_each K is_false hook args 0 0 ret w
        ≡ and_then (run_all (λ p w. K.apply p args w) [] w) (verdict ret)
  unfolding test_each run_all and_then verdict
  test_none ret w = refl

  test_hook-run_all :
      (ret : Bool) (w : S)
      → IsValid hook.procs
      → test_each K is_false hook args 0 hook.procs.length ret w
        ≡ and_then (run_all (λ p w. K.apply p args w) (view hook.procs) w) (verdict ret)
  test_hook-run_all ret w v = by_length hook.procs.length refl
    where
      by_length :
          (n : ℕ)
          → hook.procs.length ≡ n
          → test_each K is_false hook args 0 hook.procs.length ret w
            ≡ and_then (run_all (λ p w. K.apply p args w) (view hook.procs) w) (verdict ret)
      by_length zero e =
          ap (λ n. test_each K is_false hook args 0 n ret w) e
          ∙ test_none ret w
          ∙ ap (λ ps. and_then (run_all (λ p w. K.apply p args w) ps w) (verdict ret))
              (sym (nothing (view hook.procs) (length-view hook.procs v ∙ e)))
      by_length (suc n) e =
          let (b, there, room) = block_there hook.procs v (omega (arith, e)) in
          test_each-run_all b 0 hook.procs.length ret w there room (omega arith)
          ∙ ap
              (λ c.
                and_then (run_all (λ p w. K.apply p args w) (items c hook.procs.length) w)
                  (verdict ret))
              (sym there)

module _ {W P A S : Type 0} (K : Procs W P A S) (zero_bits : A) (hook : FHook P) where
  -- how the arguments are taken: too few raise BAD-ARITY, too many for an array OUT-OF-RANGE
  take_args-cases :
      (args : List A)
      → ((take_args K zero_bits args hook ≡ throw bad_arity) × (length args < hook.req))
        ⊎ ((a : FArray A) × (take_args K zero_bits args hook ≡ ok a)
            × Buffer.IsValid a
            × (Arrays.view a ≡ args)
            × (hook.req ≤ length args))
        ⊎ ((take_args K zero_bits args hook ≡ throw out_of_range)
            × (max_seq_length < first_buf_length (length args)))
  unfolding take_args
  take_args-cases args = elim (Bool-cases (ltb (length args) hook.req)) [
    | inl few ↦ inl (rw (few, take_args) refl, ltb→lt _ _ few)
    | inr enough ↦ inr (elim (make_array_var-Makes zero_bits args) [
      | inl (a, run, v, e) ↦
          inl (a, rw (enough, run, take_args) refl, v, e, ltb_false→le _ _ enough)
      | inr (run, long) ↦ inr (rw (enough, run, take_args) refl, long)
    ])
  ]

  -- what a run that was handed the arguments does, by how they were taken
  abbrev pub Runs {κ} : {B : Type κ} → Outcome B × S → S → List A → (FArray A → Type κ) → Type κ
  Runs r w args Q =
      ((r ≡ (throw bad_arity, w)) × (length args < hook.req))
      ⊎ ((a : FArray A) × Buffer.IsValid a
          × (Arrays.view a ≡ args)
          × (hook.req ≤ length args)
          × Q a)
      ⊎ ((r ≡ (throw out_of_range, w)) × (max_seq_length < first_buf_length (length args)))

  -- `run_hook_bool` raises BAD-ARITY for fewer arguments than the hook requires, and OUT-OF-RANGE for
  -- more than an array can hold, and then runs nothing. Else it runs every procedure of a hook with a
  -- valid simple array on the array of the arguments, in the order in which they were added, up to
  -- the first that does not return, and where all return it gives `#f` where some result is `#f` and
  -- `#t` where none is.
  pub run_hook_bool-Runs :
      (is_false : A → Bool) (args : List A) (w : S)
      → IsValid hook.procs
      → Runs (run_hook_bool K zero_bits is_false args hook w) w args (λ a.
        run_hook_bool K zero_bits is_false args hook w
        ≡ and_then
            (run_all (λ p w. K.apply p a w) (view hook.procs) w)
            (λ rs w'. (ok (if any_false is_false rs then false else true), w')))
  unfolding run_hook_bool and_then verdict
  run_hook_bool-Runs is_false args w v = elim (take_args-cases args) [
    | inl (run, few) ↦ inl (ap next run, few)
    | inr rest ↦ inr (elim rest [
      | inl (a, run, u, e, enough) ↦
          inl (a, u, e, enough, ap next run ∙ test_hook-run_all K is_false a hook true w v)
      | inr (run, long) ↦ inr (ap next run, long)
    ])
  ]
    where
      next : Outcome (FArray A) → Outcome Bool × S
      next o = and_then (o, w) (λ a w'. test_each K is_false hook a 0 hook.procs.length true w')
