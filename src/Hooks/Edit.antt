-- ===== src/Hooks/Edit.antt =====
-- Adding and removing procedures keeps the arity of a hook.
use fth.Base.{
  ℕ, zero, suc, ◌≡◌, refl, sym, ap, ◌∙◌, inl, inr, true, if◌then◌else◌, List, [], ◌∷◌, ◌++◌, pos,
  Bool-cases, Outcome, ok, throw, wrong_type, bad_arity, Option, none, some, arith,
}
use mathlib.Core.Path.{subst}
use fth.Simple.{SimpleArray, view, simple_array_clear, simple_array_delete, make_simple_array}
use fth.Simple.Valid.{IsValid, empty-IsValid, make_simple_array-IsValid}
use fth.Simple.Push.{simple_array_push-Yields}
use fth.Simple.Search.{first_place}
use fth.Simple.Delete.{Removes, without, simple_array_delete-Removes}
use fth.Hooks.{
  Procs, FHook, ProcOrXt, proc, xt, neither, Which, word, named, nameless, has_arity,
  proc_from_proc_or_xt, push_proc, make_hook, add_hook, remove_word, remove_hook, hook_clear,
}

abbrev pub All {ℓ κ} : {A : Type ℓ} → (A → Type κ) → List A → Type κ
All Q [] = Unit
All Q (x ∷ xs) = Q x × All Q xs

All-append {ℓ κ} :
    {A : Type ℓ} (Q : A → Type κ) (xs ys : List A) → All Q xs → All Q ys → All Q (xs ++ ys)
All-append Q [] ys h k = k
All-append Q (x ∷ xs) ys (q, h) k = (q, All-append Q xs ys h k)

All-without {ℓ κ} :
    {A : Type ℓ} (Q : A → Type κ) (i : ℕ) (xs : List A) → All Q xs → All Q (without xs i)
All-without Q zero [] h = h
All-without Q (suc i) [] h = h
All-without Q zero (x ∷ xs) (q, h) = h
All-without Q (suc i) (x ∷ xs) (q, h) = (q, All-without Q i xs h)

module _ {W P A S : Type 0} (K : Procs W P A S) where
  -- The procedure takes what the hook hands it.
  abbrev pub Fits : FHook P → P → Type 0
  Fits hook p = (hook.req ≡ K.word_req p) × (hook.opt ≡ K.word_opt p) × (hook.rest ≡ K.word_rest p)

  -- The simple array is valid, and each procedure has the arity of the hook.
  pub record IsSound (hook : FHook P) : Type 0 where
    pub valid : IsValid hook.procs
    pub fitting : All (Fits hook) (view hook.procs)

  has_arity-Fits :
      (p : P) (hook : FHook P) → has_arity K p hook.req hook.opt hook.rest ≡ true → Fits hook p
  has_arity-Fits p hook t = ground arith

  Fits-has_arity :
      (p : P) (hook : FHook P) → Fits hook p → has_arity K p hook.req hook.opt hook.rest ≡ true
  Fits-has_arity p hook (a, b, c) = ground (arith, a, b, c)

  push_proc-IsSound :
      (fresh : ℕ → P) (p : P) (hook : FHook P)
      → IsSound hook
      → Fits hook p
      → ((push_proc K fresh p hook).0 ≡ ok tt)
        × IsSound (push_proc K fresh p hook).1
        × (view (push_proc K fresh p hook).1.procs ≡ view hook.procs ++ p ∷ [])
  unfolding push_proc
  push_proc-IsSound fresh p hook s f =
      let y = simple_array_push-Yields fresh p hook.procs s.valid in
      (
        y.returns,
        record {
          valid = y.valid;
          fitting =
              subst (All (Fits hook)) (sym y.shows)
                (All-append (Fits hook) (view hook.procs) (p ∷ []) s.fitting (f, tt));
        },
        y.shows,
      )

  -- what `add-hook!` adds: a procedure of the right arity, or the one that is made of a word
  abbrev pub added_proc : ProcOrXt W P → FHook P → Option P
  added_proc (proc p) hook = if has_arity K p hook.req hook.opt hook.rest then some p else none
  added_proc (xt w) hook = some (K.make_proc w hook.req hook.opt hook.rest)
  added_proc neither hook = none

  -- The procedure that is made of a word has the arity that is asked for.
  abbrev pub MakesArity : Type 0
  MakesArity =
      (w : W) (req opt rest : ℕ)
      → (req ≡ K.word_req (K.make_proc w req opt rest))
        × (opt ≡ K.word_opt (K.make_proc w req opt rest))
        × (rest ≡ K.word_rest (K.make_proc w req opt rest))

  -- what `add-hook!` does of an object that is a procedure, a word or neither
  abbrev pub Adds : Outcome (Unit {0}) × FHook P → ProcOrXt W P → FHook P → Option P → Type 0
  Adds r o hook (some p) =
      (r.0 ≡ ok tt) × IsSound r.1 × (view r.1.procs ≡ view hook.procs ++ p ∷ []) × Fits hook p
  Adds r (proc p) hook none = r ≡ (throw bad_arity, hook)
  Adds r (xt w) hook none = r ≡ (throw bad_arity, hook)
  Adds r neither hook none = r ≡ (throw wrong_type, hook)

  add_run :
      (fresh : ℕ → P) (p : P) (hook : FHook P)
      → has_arity K p hook.req hook.opt hook.rest ≡ true
      → add_hook K fresh (proc p) hook ≡ push_proc K fresh p hook
  unfolding add_hook proc_from_proc_or_xt
  add_run fresh p hook t = rw (t, add_hook) (rw t refl)

  -- `add_hook` puts a procedure of the hook's arity, or the one that is made of a word, behind the
  -- others of a sound hook and leaves it sound; for a procedure of another arity it raises BAD-ARITY,
  -- and WRONG-TYPE-ARG for any other object, and leaves the hook as it was.
  pub add_hook-Adds :
      (fresh : ℕ → P) (o : ProcOrXt W P) (hook : FHook P)
      → MakesArity
      → IsSound hook
      → Adds (add_hook K fresh o hook) o hook (added_proc o hook)
  unfolding add_hook proc_from_proc_or_xt
  add_hook-Adds fresh (proc p) hook makes s =
      elim (Bool-cases (has_arity K p hook.req hook.opt hook.rest)) [
        | inr f ↦ rw (f, add_hook) refl
        | inl t ↦
            let fits = has_arity-Fits p hook t in
            let (a, b, c) = push_proc-IsSound fresh p hook s fits in
            subst (λ r. Adds r (proc p) hook (added_proc (proc p) hook))
              (sym (add_run fresh p hook t)) (rw t (a, b, c, fits))
      ]
  add_hook-Adds fresh (xt w) hook makes s =
      let p = K.make_proc w hook.req hook.opt hook.rest in
      let fits : Fits hook p = makes w hook.req hook.opt hook.rest in
      let t = Fits-has_arity p hook fits in
      let (a, b, c) = push_proc-IsSound fresh p hook s fits in rw (t, add_hook) (a, b, c, fits)
  add_hook-Adds fresh neither hook makes s = refl

  replaced : FHook P → SimpleArray P → FHook P
  replaced hook a = record hook { procs = a }

  remove_run :
      (w : P) (hook : FHook P) (result : Option P)
      → (simple_array_delete K.same w hook.procs).0 ≡ ok result
      → remove_word K w hook
        ≡ (ok (some result), replaced hook (simple_array_delete K.same w hook.procs).1)
  unfolding remove_word replaced
  remove_run w hook result e = rw (e, remove_word) refl

  -- What removing the word at a place of the procedures does: it takes it out and returns it, or
  -- returns NULL where there is none and leaves the hook as it was.
  abbrev pub RemovesWord : Outcome (Option (Option P)) × FHook P → P → FHook P → Option ℕ → Type 0
  RemovesWord r w hook none = r ≡ (ok (some none), hook)
  RemovesWord r w hook (some i) =
      (r.0 ≡ ok (some (some w))) × IsSound r.1 × (view r.1.procs ≡ without (view hook.procs) i)

  -- what `remove-hook!` does, by what it is told
  abbrev pub RemovesHook : Outcome (Option (Option P)) × FHook P → Which P → FHook P → Type 0
  RemovesHook r (word w) hook = RemovesWord r w hook (first_place K.same w (view hook.procs))
  RemovesHook r (named none) hook = r ≡ (ok none, hook)
  RemovesHook r (named (some w)) hook =
      RemovesWord r w hook (first_place K.same w (view hook.procs))
  RemovesHook r nameless hook = r ≡ (ok none, hook)

  remove_word-RemovesWord :
      (w : P) (hook : FHook P)
      → IsSound hook
      → RemovesWord (remove_word K w hook) w hook (first_place K.same w (view hook.procs))
  unfolding replaced
  remove_word-RemovesWord w hook s =
      go (first_place K.same w (view hook.procs))
        (simple_array_delete-Removes K.same w hook.procs s.valid)
    where
      go :
          (o : Option ℕ)
          → Removes (simple_array_delete K.same w hook.procs) hook.procs w o
          → RemovesWord (remove_word K w hook) w hook o
      go none e =
          remove_run w hook none (ap (λ (r : _ × SimpleArray P). r.0) e)
          ∙ ap (λ (r : _ × SimpleArray P). (ok (some none), replaced hook r.1)) e
      go (some i) y =
          subst (λ r. RemovesWord r w hook (some i)) (sym (remove_run w hook (some w) y.returns))
            (
              refl,
              record {
                valid = y.valid;
                fitting =
                    subst (All (Fits hook)) (sym y.shows)
                      (All-without (Fits hook) i (view hook.procs) s.fitting);
              },
              y.shows,
            )

  -- `remove_hook` takes the first procedure that is the word, or the word of the name, out of a sound
  -- hook, leaves the others in order and the hook sound, and returns it; it returns NULL where the
  -- word is not in the hook, and `#f` where there is no such word, and leaves the hook as it was.
  pub remove_hook-RemovesHook :
      (which : Which P) (hook : FHook P)
      → IsSound hook
      → RemovesHook (remove_hook K which hook) which hook
  unfolding remove_hook
  remove_hook-RemovesHook (word w) hook s = remove_word-RemovesWord w hook s
  remove_hook-RemovesHook (named none) hook s = refl
  remove_hook-RemovesHook (named (some w)) hook s = remove_word-RemovesWord w hook s
  remove_hook-RemovesHook nameless hook s = refl

  -- the hooks that a program can come to: one step is one call, whether it returns or raises
  pub data Reached : FHook P → Type 0 where
    made : (name : List ℕ) (req opt rest : ℕ) → Reached (make_hook K name req opt rest)
    added :
        {hook : FHook P} (fresh : ℕ → P) (o : ProcOrXt W P)
        → Reached hook
        → Reached (add_hook K fresh o hook).1
    removed :
        {hook : FHook P} (which : Which P) → Reached hook → Reached (remove_hook K which hook).1
    cleared : {hook : FHook P} → Reached hook → Reached (hook_clear K hook)

  Adds-IsSound :
      (r : Outcome (Unit {0}) × FHook P) (o : ProcOrXt W P) (hook : FHook P) (p : Option P)
      → IsSound hook
      → Adds r o hook p
      → IsSound r.1
  Adds-IsSound r o hook (some p) s (a, b, c, d) = b
  Adds-IsSound r (proc q) hook none s e = subst (λ (r : _ × FHook P). IsSound r.1) (sym e) s
  Adds-IsSound r (xt w) hook none s e = subst (λ (r : _ × FHook P). IsSound r.1) (sym e) s
  Adds-IsSound r neither hook none s e = subst (λ (r : _ × FHook P). IsSound r.1) (sym e) s

  RemovesWord-IsSound :
      (r : Outcome (Option (Option P)) × FHook P) (w : P) (hook : FHook P) (place : Option ℕ)
      → IsSound hook
      → RemovesWord r w hook place
      → IsSound r.1
  RemovesWord-IsSound r w hook none s e = subst (λ (r : _ × FHook P). IsSound r.1) (sym e) s
  RemovesWord-IsSound r w hook (some i) s (a, b, c) = b

  RemovesHook-IsSound :
      (r : Outcome (Option (Option P)) × FHook P) (which : Which P) (hook : FHook P)
      → IsSound hook
      → RemovesHook r which hook
      → IsSound r.1
  RemovesHook-IsSound r (word w) hook s e =
      RemovesWord-IsSound r w hook (first_place K.same w (view hook.procs)) s e
  RemovesHook-IsSound r (named none) hook s e = subst (λ (r : _ × FHook P). IsSound r.1) (sym e) s
  RemovesHook-IsSound r (named (some w)) hook s e =
      RemovesWord-IsSound r w hook (first_place K.same w (view hook.procs)) s e
  RemovesHook-IsSound r nameless hook s e = subst (λ (r : _ × FHook P). IsSound r.1) (sym e) s

  -- In every hook that calls of `make_hook`, `add_hook`, `remove_hook` and `hook_clear` lead to, the
  -- simple array is valid and each procedure has the arity of the hook.
  pub Reached-IsSound : {hook : FHook P} → MakesArity → Reached hook → IsSound hook
  unfolding make_hook hook_clear simple_array_clear make_simple_array
  Reached-IsSound makes (made name req opt rest) = record {
    valid = make_simple_array-IsValid (pos 8);
    fitting = tt;
  }
  Reached-IsSound makes (added {hook = hook} fresh o r) =
      let s = Reached-IsSound makes r in
      Adds-IsSound (add_hook K fresh o hook) o hook (added_proc o hook) s
        (add_hook-Adds fresh o hook makes s)
  Reached-IsSound makes (removed {hook = hook} which r) =
      let s = Reached-IsSound makes r in
      RemovesHook-IsSound (remove_hook K which hook) which hook s
        (remove_hook-RemovesHook which hook s)
  Reached-IsSound makes (cleared {hook = hook} r) =
      let s = Reached-IsSound makes r in
      record { valid = empty-IsValid hook.procs (s.valid).grows; fitting = tt }
