-- ===== src/Collector/Frames.antt =====
-- The frames of src/object.c: for each word that runs, the instances made since it began.
use fth.Base.{
  ℕ, zero, suc, ◌+◌, ◌-◌, ◌<◌, ◌≡◌, refl, ◌∙◌, leb, if◌then◌else◌, List, [], ◌∷◌, Option, none, inl,
  arith,
}
use mathlib.Core.Path.{ap₂}
use fth.Memory.{update}
use fth.Memory.Writes.{update_ne}

abbrev pub gc_frame_size : ℕ
gc_frame_size = 128

-- The frames in `ficlVm`. A word is its number; the chain along `next` from `gc_inst` is a list.
pub record Frames : Type 0 where
  pub gc_frame_level : ℕ
  pub gc_word : ℕ → Option ℕ
  pub gc_inst : ℕ → List ℕ

-- `for (i = 0; i < n; i++) GC_FRAME_INST(i) = NULL`
unfoldable pub clear_insts : ℕ → (ℕ → List ℕ) → ℕ → List ℕ
clear_insts zero inst = inst
clear_insts (suc n) inst = update (clear_insts n inst) n []

unfoldable pub init_gc : Frames → Frames
unfolding clear_insts
init_gc f = record {
  gc_frame_level = 0;
  gc_word = update f.gc_word 0 none;
  gc_inst = clear_insts gc_frame_size f.gc_inst;
}

-- `++gc_frame_level`, held below the number of frames
abbrev pub level_up : ℕ → ℕ
level_up n = if leb gc_frame_size (n + 1) then gc_frame_size - 1 else n + 1

unfoldable pub gc_push : Option ℕ → Frames → Frames
gc_push word f = record {
  gc_frame_level = level_up f.gc_frame_level;
  gc_word = update f.gc_word (level_up f.gc_frame_level) word;
  gc_inst = update f.gc_inst (level_up f.gc_frame_level) [];
}

-- `--gc_frame_level`, held at 0: the difference on ℕ stops there
unfoldable pub gc_pop : Frames → Frames
gc_pop f = record f { gc_frame_level = f.gc_frame_level - 1 }

unfoldable pub gc_loop_reset : Frames → Frames
gc_loop_reset f = record f { gc_inst = update f.gc_inst f.gc_frame_level [] }

-- a fresh instance goes to the front of the current frame
unfoldable pub collect : ℕ → Frames → Frames
collect i f = record f {
  gc_inst = update f.gc_inst f.gc_frame_level (i ∷ f.gc_inst f.gc_frame_level);
}

-- the chains of the `n` frames from `i` on
unfoldable pub chains : (ℕ → List ℕ) → ℕ → ℕ → List (List ℕ)
chains inst i zero = []
chains inst i (suc n) = inst i ∷ chains inst (i + 1) n

-- what the marking loop over the frames goes through
abbrev pub live_frames : Frames → List (List ℕ)
live_frames f = chains f.gc_inst 0 (f.gc_frame_level + 1)

-- the frames that calls lead to, from the initialization on
pub data Reached : Frames → Type 0 where
  started : (f : Frames) → Reached (init_gc f)
  pushed : {f : Frames} (word : Option ℕ) → Reached f → Reached (gc_push word f)
  popped : {f : Frames} → Reached f → Reached (gc_pop f)
  reset : {f : Frames} → Reached f → Reached (gc_loop_reset f)
  collected : {f : Frames} (i : ℕ) → Reached f → Reached (collect i f)

-- However the calls of `gc_push`, `gc_pop`, `gc_loop_reset` and `fth_make_instance` follow each other,
-- the level of the frames stays within the tables of frames.
pub Reached-IsBounded : {f : Frames} → Reached f → f.gc_frame_level < gc_frame_size
unfolding init_gc gc_push gc_pop gc_loop_reset collect
Reached-IsBounded (started f) = omega arith
Reached-IsBounded (pushed {f = f} word r) = let b = Reached-IsBounded r in ground (arith, b)
Reached-IsBounded (popped {f = f} r) = omega (arith, Reached-IsBounded r)
Reached-IsBounded (reset r) = Reached-IsBounded r
Reached-IsBounded (collected i r) = Reached-IsBounded r

chains_ext :
    (f g : ℕ → List ℕ) (i n : ℕ) → ((j : ℕ) → j < i + n → f j ≡ g j) → chains f i n ≡ chains g i n
unfolding chains
chains_ext f g i zero same = refl
chains_ext f g i (suc n) same =
    ap₂ (λ x xs. x ∷ xs) (same i (omega arith))
      (chains_ext f g (i + 1) n (λ j lt. same j (omega (arith, lt))))

-- Below the highest level, what a word collects is gone with its frame: after `gc_push`, the
-- collecting of an instance and `gc_pop` the collector starts from the same instances as before.
pub gc_pop-gc_push :
    (word : Option ℕ) (i : ℕ) (f : Frames)
    → f.gc_frame_level + 1 < gc_frame_size
    → live_frames (gc_pop (collect i (gc_push word f))) ≡ live_frames f
unfolding gc_push gc_pop collect
gc_pop-gc_push word i f lt =
    rw (up, back)
      (chains_ext _ f.gc_inst 0 (f.gc_frame_level + 1) (λ j le.
        update_ne (update f.gc_inst (f.gc_frame_level + 1) []) (f.gc_frame_level + 1) _ j
          (inl (omega (arith, le)))
        ∙ update_ne f.gc_inst (f.gc_frame_level + 1) [] j (inl (omega (arith, le)))))
  where
    up : level_up f.gc_frame_level ≡ f.gc_frame_level + 1
    up = ground (arith, lt)

    back : f.gc_frame_level + 1 - 1 ≡ f.gc_frame_level
    back = omega arith
