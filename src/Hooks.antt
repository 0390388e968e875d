-- ===== src/Hooks.antt =====
-- `FHook` of src/hook.c: procedures of one arity, kept in a simple array in the order in which they
-- were added, and run in that order.
pub mod Edit
pub mod Run
pub mod Test
use fth.Base.{
  ℕ, zero, suc, ◌+◌, Bool, true, false, not, ◌&&◌, ◌==◌, ltb, if◌then◌else◌, ℤ, pos, List, [], ◌∷◌,
  length, Option, none, some, Outcome, ok, throw, fault, wrong_type, bad_arity, and_then,
}
use fth.Memory.{Block, store}
use fth.Array.{FArray}
use fth.Array.Access.{make_array_len, make_array_var, array_ref}
use fth.Simple.{
  SimpleArray, make_simple_array, simple_array_push, simple_array_ref, simple_array_delete,
  simple_array_member_p, simple_array_clear, simple_array_equal_p, simple_array_to_array,
}

-- What src/hook.c asks of the procedures of src/proc.c and of the words of Ficl. `W` are the words,
-- `P` the procedures, `A` what they are applied to and return, and `S` what else they read and
-- change; they do not change the hook that runs them. `make_proc` gives a procedure of its own, where
-- fth_make_proc of a word that is no procedure yet turns that word into one in its place. That a pointer
-- is NULL is not asked here: no index below the length of a valid simple array gives one.
pub record Procs (W P A S : Type 0) : Type 0 where
  -- `fth_make_proc`
  pub make_proc : W → ℕ → ℕ → ℕ → P
  pub word_req : P → ℕ
  pub word_opt : P → ℕ
  pub word_rest : P → ℕ
  -- the equality of pointers
  pub same : P → P → Bool
  pub apply : P → FArray A → S → Outcome A × S

pub record FHook (P : Type 0) : Type 0 where
  pub name : List ℕ
  pub procs : SimpleArray P
  pub req : ℕ
  pub opt : ℕ
  pub rest : ℕ

-- what `add-hook!` is handed
pub data ProcOrXt (W P : Type 0) : Type 0 where
  proc : P → ProcOrXt W P
  xt : W → ProcOrXt W P
  neither : ProcOrXt W P

-- how `remove-hook!` and `hook-member?` are told a procedure: a word, a string with the word that has
-- that name, if there is one, or another object
pub data Which (P : Type 0) : Type 0 where
  word : P → Which P
  named : Option P → Which P
  nameless : Which P

module _ {W P A S : Type 0} (K : Procs W P A S) where
  -- the three comparisons of an arity
  abbrev pub has_arity : P → ℕ → ℕ → ℕ → Bool
  has_arity p req opt rest = req == K.word_req p && opt == K.word_opt p && rest == K.word_rest p

  -- `none` is `#f`
  unfoldable pub proc_from_proc_or_xt : ProcOrXt W P → ℕ → ℕ → ℕ → Outcome (Option P)
  proc_from_proc_or_xt (proc p) req opt rest =
      if has_arity p req opt rest then ok (some p) else throw bad_arity
  proc_from_proc_or_xt (xt w) req opt rest = ok (some (K.make_proc w req opt rest))
  proc_from_proc_or_xt neither req opt rest = ok none

  -- without the entry in the dictionary of Ficl
  unfoldable pub make_hook : List ℕ → ℕ → ℕ → ℕ → FHook P
  make_hook name req opt rest = record {
    name = name;
    procs = make_simple_array (pos 8);
    req = req;
    opt = opt;
    rest = rest;
  }

  -- `simple_array_push (data, proc)`
  unfoldable pub push_proc : (ℕ → P) → P → FHook P → Outcome (Unit {0}) × FHook P
  push_proc fresh p hook =
      let r = simple_array_push fresh p hook.procs in (r.0, record hook { procs = r.1 })

  unfoldable pub add_hook : (ℕ → P) → ProcOrXt W P → FHook P → Outcome (Unit {0}) × FHook P
  unfolding proc_from_proc_or_xt push_proc
  add_hook fresh proc_or_xt hook =
      elim (proc_from_proc_or_xt proc_or_xt hook.req hook.opt hook.rest) [
        | ok found ↦ elim found [
          | none ↦ (throw wrong_type, hook)
          | some p ↦
              if has_arity p hook.req hook.opt hook.rest
              then push_proc fresh p hook
              else (throw bad_arity, hook)
        ]
        | throw e ↦ (throw e, hook)
        | fault ↦ (fault, hook)
      ]

  unfoldable pub remove_word : P → FHook P → Outcome (Option (Option P)) × FHook P
  remove_word w hook =
      let r = simple_array_delete K.same w hook.procs in
      elim r.0 [
        | ok gone ↦ (ok (some gone), record hook { procs = r.1 })
        | throw e ↦ (throw e, record hook { procs = r.1 })
        | fault ↦ (fault, record hook { procs = r.1 })
      ]

  -- `none` is `#f`, and `some none` NULL
  unfoldable pub remove_hook : Which P → FHook P → Outcome (Option (Option P)) × FHook P
  unfolding remove_word
  remove_hook (word w) hook = remove_word w hook
  remove_hook (named none) hook = (ok none, hook)
  remove_hook (named (some w)) hook = remove_word w hook
  remove_hook nameless hook = (ok none, hook)

  unfoldable pub hook_member_p : Which P → FHook P → Outcome Bool
  hook_member_p (word w) hook = simple_array_member_p K.same w hook.procs
  hook_member_p (named none) hook = ok false
  hook_member_p (named (some w)) hook = simple_array_member_p K.same w hook.procs
  hook_member_p nameless hook = ok false

  unfoldable pub hook_empty_p : FHook P → Bool
  hook_empty_p hook = hook.procs.length == 0

  unfoldable pub hook_clear : FHook P → FHook P
  hook_clear hook = record hook { procs = simple_array_clear hook.procs }

  -- `equal` is fth_object_equal_p
  unfoldable pub hook_equal_p : (P → P → Bool) → FHook P → FHook P → Outcome Bool
  hook_equal_p equal h k =
      if h.req == k.req && h.opt == k.opt && h.rest == k.rest
      then simple_array_equal_p equal h.procs k.procs
      else ok false

  -- `prc = simple_array_ref (data, i)`, `res = fth_proc_apply (prc, args, caller)`; NULL is no
  -- procedure to apply
  unfoldable pub apply_at : FHook P → FArray A → ℕ → S → Outcome A × S
  apply_at hook args i w = elim (simple_array_ref hook.procs i) [
    | ok found ↦ elim found [ none ↦ (fault, w) | some prc ↦ K.apply prc args w ]
    | throw e ↦ (throw e, w)
    | fault ↦ (fault, w)
  ]

  -- `array_fast_set (array, i, value)`, which tests nothing
  unfoldable pub fast_set : ℕ → A → FArray A → Outcome (FArray A)
  fast_set i value a = elim (store a.buf (a.data_offset + i) value) [
    | none ↦ fault
    | some b ↦ ok (record a { buf = b; changed_p = true })
  ]

  -- `for (i = start; i < start + n; i++) ret[i] = res`
  unfoldable pub apply_each : FHook P → FArray A → ℕ → ℕ → FArray A → S → Outcome (FArray A) × S
  unfolding apply_at fast_set and_then
  apply_each hook args i zero ret w = (ok ret, w)
  apply_each hook args i (suc n) ret w = and_then (apply_at hook args i w) (λ res w'.
      and_then (fast_set i res ret, w') (λ ret' w''. apply_each hook args (suc i) n ret' w''))

  unfoldable pub hook_apply : A → FArray A → FHook P → S → Outcome (FArray A) × S
  unfolding apply_each and_then
  hook_apply zero_bits args hook w =
      and_then (make_array_len zero_bits (pos hook.procs.length), w)
        (λ ret w'. apply_each hook args 0 hook.procs.length ret w')

  -- the test of the number of arguments and the array of them
  unfoldable pub take_args : A → List A → FHook P → Outcome (FArray A)
  take_args zero_bits args hook =
      if ltb (length args) hook.req then throw bad_arity else make_array_var zero_bits args

  unfoldable pub run_hook : A → List A → FHook P → S → Outcome (FArray A) × S
  unfolding hook_apply take_args and_then
  run_hook zero_bits args hook w =
      and_then (take_args zero_bits args hook, w) (λ a w'. hook_apply zero_bits a hook w')

  -- the loop of `run_hook_bool`: `is_false` is FTH_FALSE_P
  unfoldable pub test_each : (A → Bool) → FHook P → FArray A → ℕ → ℕ → Bool → S → Outcome Bool × S
  unfolding apply_at and_then
  test_each is_false hook args i zero ret w = (ok ret, w)
  test_each is_false hook args i (suc n) ret w =
      and_then (apply_at hook args i w)
        (λ res w'. test_each is_false hook args (suc i) n (if is_false res then false else ret) w')

  unfoldable pub run_hook_bool : A → (A → Bool) → List A → FHook P → S → Outcome Bool × S
  unfolding test_each take_args and_then
  run_hook_bool zero_bits is_false args hook w =
      and_then (take_args zero_bits args hook, w)
        (λ a w'. test_each is_false hook a 0 hook.procs.length true w')

  -- the loop of `run_hook_again`: each result is the first argument of the next procedure
  unfoldable pub again_each : FHook P → ℕ → ℕ → FArray A → S → Outcome (FArray A) × S
  unfolding apply_at fast_set and_then
  again_each hook i zero args w = (ok args, w)
  again_each hook i (suc n) args w = and_then (apply_at hook args i w) (λ res w'.
      and_then (fast_set 0 res args, w') (λ args' w''. again_each hook (suc i) n args' w''))

  unfoldable pub run_hook_again : A → List A → FHook P → S → Outcome A × S
  unfolding again_each take_args and_then
  run_hook_again zero_bits args hook w =
      and_then (take_args zero_bits args hook, w)
        (λ a w'.
          and_then (again_each hook 0 hook.procs.length a w')
            (λ left w''. (array_ref (pos 0) left, w'')))
