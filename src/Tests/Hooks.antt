-- ===== src/Tests/Hooks.antt =====
-- Hooks to run the model of src/hook.c on.
use fth.Base.{
  ℕ, suc, ◌+◌, ◌<◌, ◌≡◌, refl, true, false, ◌==◌, if◌then◌else◌, [], ◌∷◌, ok, throw, out_of_range,
  ◌⊎◌, and_then,
}
use fth.Array.{max_seq_length}
use fth.Array.Access.Make.{first_buf_length}
use fth.Simple.{view}
use fth.Hooks.{Procs, FHook, proc, xt, make_hook, add_hook, hook_apply, run_hook_bool}
use fth.Hooks.Edit.{
  IsSound, MakesArity, Adds, added_proc, add_hook-Adds, Reached, made, added, Reached-IsSound,
}
use fth.Hooks.Run.{Follows, run_all, hook_apply-Follows}
use fth.Hooks.Test.{Runs, any_false, run_hook_bool-Runs}
use fth.Tests.{three}

-- a procedure that adds its number to the count of the calls before
pub record Counter : Type 0 where
  pub number : ℕ
  pub takes : ℕ
  pub opt : ℕ
  pub rest : ℕ

abbrev counters : Procs ℕ Counter ℕ ℕ
counters = record {
  make_proc = λ w req opt rest. record { number = w; takes = req; opt = opt; rest = rest };
  word_req = λ p. p.takes;
  word_opt = λ p. p.opt;
  word_rest = λ p. p.rest;
  same = λ p q. p.number == q.number;
  apply = λ p args w. (ok (p.number + w), suc w);
}

abbrev counter : ℕ → Counter
counter n = record { number = n; takes = 1; opt = 0; rest = 0 }

counters-MakesArity : MakesArity counters
counters-MakesArity w req opt rest = (refl, refl, refl)

abbrev no_procs : FHook Counter
no_procs = make_hook counters (104 ∷ []) 1 0 0

abbrev one_proc : FHook Counter
one_proc = (add_hook counters (λ _. counter 9) (proc (counter 10)) no_procs).1

abbrev two_procs : FHook Counter
two_procs = (add_hook counters (λ _. counter 9) (xt 20) one_proc).1

two_procs-Reached : Reached counters two_procs
two_procs-Reached =
    added (λ _. counter 9) (xt 20)
      (added (λ _. counter 9) (proc (counter 10)) (made (104 ∷ []) 1 0 0))

two_procs-IsSound : IsSound counters two_procs
two_procs-IsSound = Reached-IsSound counters counters-MakesArity two_procs-Reached

Reached-IsSound_example : IsSound counters two_procs
Reached-IsSound_example = Reached-IsSound counters counters-MakesArity two_procs-Reached

add_hook-Adds_example :
    Adds counters
      (add_hook counters (λ _. counter 9) (proc (counter 30)) two_procs)
      (proc (counter 30))
      two_procs
      (added_proc counters (proc (counter 30)) two_procs)
add_hook-Adds_example =
    add_hook-Adds counters (λ _. counter 9) (proc (counter 30)) two_procs counters-MakesArity
      two_procs-IsSound

hook_apply-Follows_example :
    Follows
      (hook_apply counters 0 three two_procs 0)
      (run_all (λ p w. counters.apply p three w) (view two_procs.procs) 0)
      []
    ⊎ ((hook_apply counters 0 three two_procs 0 ≡ (throw out_of_range, 0))
        × (max_seq_length < first_buf_length two_procs.procs.length))
hook_apply-Follows_example = hook_apply-Follows counters three two_procs 0 0 two_procs-IsSound.valid

run_hook_bool-Runs_example :
    Runs counters 0 two_procs
      (run_hook_bool counters 0 (λ x. x == 10) (7 ∷ []) two_procs 0)
      0
      (7 ∷ [])
      (λ a.
        run_hook_bool counters 0 (λ x. x == 10) (7 ∷ []) two_procs 0
        ≡ and_then
            (run_all (λ p w. counters.apply p a w) (view two_procs.procs) 0)
            (λ rs w'. (ok (if any_false (λ x. x == 10) rs then false else true), w')))
run_hook_bool-Runs_example =
    run_hook_bool-Runs counters 0 two_procs (λ x. x == 10) (7 ∷ []) 0 two_procs-IsSound.valid
