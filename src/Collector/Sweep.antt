-- ===== src/Collector/Sweep.antt =====
-- The freeing loop frees what has no mark, and nothing else.
use fth.Base.{
  ℕ, zero, suc, ◌+◌, ◌-◌, ◌≤◌, ◌<◌, ◌≡◌, refl, sym, ap, ◌∙◌, ◌⊎◌, inl, inr, true, false, ◌==◌,
  ==_iff, ltb, if◌then◌else◌, List, [], ◌∷◌, Bool-cases, some, arith,
}
use mathlib.Core.Path.{subst}
use fth.Memory.Writes.{update_eq, update_ne}
use fth.Collector.{
  any_mark_p, freed_p, Heap, mark_clear, mark_stack, mark_frames, mark_elements, object_free,
  sweep_one, frees, sweep, take_free, gc_run, gc_chunk_size,
}
use fth.Collector.Marking.{IsMarked}

sweep_one-other : (i v : ℕ) (h : Heap) → (v < i) ⊎ (i < v) → (sweep_one i h).bits v ≡ h.bits v
unfolding sweep_one mark_clear object_free
sweep_one-other i v h apart = elim (Bool-cases (freed_p (h.bits i))) [
  | inl t ↦ rw (t, sweep_one) refl
  | inr f ↦ elim (Bool-cases (any_mark_p (h.bits i))) [
    | inl m ↦ rw (f, m, sweep_one) (update_ne h.bits i _ v apart)
    | inr m ↦ rw (f, m, sweep_one) (update_ne h.bits i _ v apart)
  ]
]

-- A marked instance loses its mark only.
sweep_one-IsMarked :
    (i : ℕ) (h : Heap) → IsMarked h i → ((sweep_one i h).bits i).freed ≡ (h.bits i).freed
unfolding sweep_one mark_clear object_free
sweep_one-IsMarked i h m =
    let f : freed_p (h.bits i) ≡ false = ground (arith, m) in
    rw (f, m, sweep_one)
      (ap (λ b. b.freed) (update_eq h.bits i (record (h.bits i) { mark = false }) i refl))

sweep_one-frees :
    (i : ℕ) (h : Heap)
    → freed_p (h.bits i) ≡ false
    → any_mark_p (h.bits i) ≡ false
    → ((sweep_one i h).bits i).freed ≡ true
unfolding sweep_one mark_clear object_free
sweep_one-frees i h f m =
    rw (f, m, sweep_one)
      (ap (λ b. b.freed)
        (update_eq h.bits i
          (record { freed = true; mark = false; protect = false; permanent = false }) i refl))

sweep_step :
    (i n c : ℕ) (h : Heap)
    → sweep i (suc n) c h ≡ sweep (suc i) n (if frees i h then c + 1 else c) (sweep_one i h)
unfolding sweep
sweep_step i n c h = refl

sweep_below : (i n c v : ℕ) (h : Heap) → v < i → (sweep i n c h).1.bits v ≡ h.bits v
unfolding sweep
sweep_below i zero c v h lt = refl
sweep_below i (suc n) c v h lt =
    sweep_below (suc i) n (if frees i h then c + 1 else c) v (sweep_one i h) (omega (arith, lt))
    ∙ sweep_one-other i v h (inl lt)

pub sweep_above : (i n c v : ℕ) (h : Heap) → i + n ≤ v → (sweep i n c h).1.bits v ≡ h.bits v
unfolding sweep
sweep_above i zero c v h le = refl
sweep_above i (suc n) c v h le =
    sweep_above (suc i) n (if frees i h then c + 1 else c) v (sweep_one i h) (omega (arith, le))
    ∙ sweep_one-other i v h (inr (omega (arith, le)))

-- What is marked when the loop begins is as it was, but for the mark.
pub sweep-IsMarked :
    (i n c v : ℕ) (h : Heap) → IsMarked h v → ((sweep i n c h).1.bits v).freed ≡ (h.bits v).freed
unfolding sweep
sweep-IsMarked i zero c v h m = refl
sweep-IsMarked i (suc n) c v h m = elim (Bool-cases (v == i)) [
  | inl e ↦
      let same = (==_iff v i).0 e in
      ap (λ b. b.freed)
        (sweep_below (suc i) n (if frees i h then c + 1 else c) v (sweep_one i h)
          (omega (arith, same)))
      ∙ subst (λ x. ((sweep_one i h).bits x).freed ≡ (h.bits x).freed) (sym same)
          (sweep_one-IsMarked i h (subst (IsMarked h) same m))
  | inr e ↦
      let other = sweep_one-other i v h (ground (arith, e)) in
      sweep-IsMarked (suc i) n (if frees i h then c + 1 else c) v (sweep_one i h)
        (ap any_mark_p other ∙ m)
      ∙ ap (λ b. b.freed) other
]

pub sweep-frees :
    (i n c v : ℕ) (h : Heap)
    → i ≤ v
    → v < i + n
    → freed_p (h.bits v) ≡ false
    → any_mark_p (h.bits v) ≡ false
    → ((sweep i n c h).1.bits v).freed ≡ true
unfolding sweep
sweep-frees i zero c v h a b f m = absurd (omega (arith, a, b))
sweep-frees i (suc n) c v h a b f m = elim (Bool-cases (v == i)) [
  | inl e ↦
      let same = (==_iff v i).0 e in
      ap (λ b. b.freed)
        (sweep_below (suc i) n (if frees i h then c + 1 else c) v (sweep_one i h)
          (omega (arith, same)))
      ∙ subst (λ x. ((sweep_one i h).bits x).freed ≡ true) (sym same)
          (sweep_one-frees i h (subst (λ x. freed_p (h.bits x) ≡ false) same f)
            (subst (λ x. any_mark_p (h.bits x) ≡ false) same m))
  | inr e ↦
      let other = sweep_one-other i v h (ground (arith, e)) in
      sweep-frees (suc i) n (if frees i h then c + 1 else c) v (sweep_one i h)
        (ground (arith, a, e)) (omega (arith, b)) (ap freed_p other ∙ f) (ap any_mark_p other ∙ m)
]

pub take_free-bits : (c : ℕ) (h : Heap) (v : ℕ) → (take_free (c, h)).1.bits v ≡ h.bits v
unfolding take_free
take_free-bits c h v = go h.free_list refl
  where
    go : (l : List ℕ) → h.free_list ≡ l → (take_free (c, h)).1.bits v ≡ h.bits v
    go [] e = rw (e, take_free) refl
    go (i ∷ is) e = elim (Bool-cases (ltb gc_chunk_size c)) [
      | inl t ↦ rw (e, t, take_free) refl
      | inr f ↦ rw (e, f, take_free) refl
    ]

pub run_of :
    (refs : ℕ → List ℕ) (depth : ℕ) (stack : List ℕ) (frames : List (List ℕ)) (h marked : Heap)
    → mark_elements refs depth 0 (h.last_instance - 1) (mark_frames frames (mark_stack stack h))
      ≡ some marked
    → gc_run refs depth stack frames h ≡ some (take_free (sweep 0 (h.last_instance - 1) 0 marked))
unfolding gc_run
run_of refs depth stack frames h marked e = rw (e, gc_run) refl
