-- ===== src/Collector/Sound.antt =====
-- The free list of src/object.c holds freed instances only, each once, so that no allocation hands
-- out an instance twice.
use fth.Base.{
  ℕ, zero, suc, ◌+◌, ◌≤◌, ◌<◌, ◌≡◌, refl, sym, ap, ◌∙◌, ◌⊎◌, inl, inr, Bool, true, false, ◌==◌,
  ==_iff, if◌then◌else◌, List, [], ◌∷◌, Bool-cases, arith,
}
use mathlib.Core.Path.{subst}
use fth.Memory.{update}
use fth.Collector.{
  Bits, Heap, any_mark_p, freed_p, instance_p, mark_clear, set_protect, gc_protect, gc_unprotect,
  gc_permanent, gc_unmark, object_free, sweep_one, frees, sweep,
}
use fth.Collector.Marking.{In, Grows}

abbrev pub IsDistinct : List ℕ → Type 0
IsDistinct [] = Unit
IsDistinct (i ∷ is) = (In i is → ⊥) × IsDistinct is

pub record IsSound (h : Heap) : Type 0 where
  pub listed : (i : ℕ) → In i h.free_list → (h.bits i).freed ≡ true
  pub within : (i : ℕ) → In i h.free_list → i < h.last_instance
  pub distinct : IsDistinct h.free_list

-- The flags but the freed one may change.
pub record SameFree (h h' : Heap) : Type 0 where
  pub same_last : h'.last_instance ≡ h.last_instance
  pub same_freed : (i : ℕ) → (h'.bits i).freed ≡ (h.bits i).freed
  pub same_list : h'.free_list ≡ h.free_list

pub SameFree-IsSound : (h h' : Heap) → SameFree h h' → IsSound h → IsSound h'
SameFree-IsSound h h' s v = record {
  listed = λ i m. s.same_freed i ∙ v.listed i (subst (In i) s.same_list m);
  within = λ i m. subst (λ n. i < n) (sym s.same_last) (v.within i (subst (In i) s.same_list m));
  distinct = subst IsDistinct (sym s.same_list) v.distinct;
}

pub Grows-SameFree : (h h' : Heap) → Grows h h' → SameFree h h'
Grows-SameFree h h' g = record {
  same_last = g.same_last;
  same_freed = g.same_freed;
  same_list = g.same_list;
}

pub with_bits :
    (i : ℕ) (b : Bits) (h : Heap)
    → b.freed ≡ (h.bits i).freed
    → SameFree h (record h { bits = update h.bits i b })
with_bits i b h same = record {
  same_last = refl;
  same_freed = λ j. freed j (j == i) refl;
  same_list = refl;
}
  where
    freed : (j : ℕ) (t : Bool) → (j == i) ≡ t → (update h.bits i b j).freed ≡ (h.bits j).freed
    freed j true e = rw e (same ∙ ap (λ k. (h.bits k).freed) (sym ((==_iff j i).0 e)))
    freed j false e = rw e refl

SameFree-refl : (h : Heap) → SameFree h h
SameFree-refl h = record { same_last = refl; same_freed = λ i. refl; same_list = refl }

gc_protect-SameFree : (i : ℕ) (h : Heap) → SameFree h (gc_protect i h)
unfolding gc_protect set_protect
gc_protect-SameFree i h = elim (Bool-cases (instance_p i h)) [
  | inl t ↦ rw (t, gc_protect) (with_bits i (record (h.bits i) { protect = true }) h refl)
  | inr f ↦ rw (f, gc_protect) (SameFree-refl h)
]

gc_unprotect-SameFree : (i : ℕ) (h : Heap) → SameFree h (gc_unprotect i h)
unfolding gc_unprotect set_protect
gc_unprotect-SameFree i h = elim (Bool-cases (instance_p i h)) [
  | inl t ↦ rw (t, gc_unprotect) (with_bits i (record (h.bits i) { protect = false }) h refl)
  | inr f ↦ rw (f, gc_unprotect) (SameFree-refl h)
]

gc_permanent-SameFree : (i : ℕ) (h : Heap) → SameFree h (gc_permanent i h)
unfolding gc_permanent
gc_permanent-SameFree i h = elim (Bool-cases (instance_p i h)) [
  | inl t ↦ rw (t, gc_permanent) (with_bits i (record (h.bits i) { permanent = true }) h refl)
  | inr f ↦ rw (f, gc_permanent) (SameFree-refl h)
]

gc_unmark-SameFree : (i : ℕ) (h : Heap) → SameFree h (gc_unmark i h)
unfolding gc_unmark mark_clear
gc_unmark-SameFree i h = elim (Bool-cases (instance_p i h)) [
  | inl t ↦ rw (t, gc_unmark) (with_bits i (record (h.bits i) { mark = false }) h refl)
  | inr f ↦ rw (f, gc_unmark) (SameFree-refl h)
]

sweep_one-IsSound : (i : ℕ) (h : Heap) → i < h.last_instance → IsSound h → IsSound (sweep_one i h)
unfolding sweep_one mark_clear object_free
sweep_one-IsSound i h lt v = elim (Bool-cases (freed_p (h.bits i))) [
  | inl t ↦ rw (t, sweep_one) v
  | inr f ↦ elim (Bool-cases (any_mark_p (h.bits i))) [
    | inl m ↦
        rw (f, m, sweep_one)
          (SameFree-IsSound h (mark_clear i h)
            (with_bits i (record (h.bits i) { mark = false }) h refl) v)
    | inr m ↦ rw (f, m, sweep_one) (object_free-IsSound (ground (arith, f, m)))
  ]
]
  where
    object_free-IsSound : (h.bits i).freed ≡ false → IsSound (object_free i h)
    object_free-IsSound live = record {
      listed = λ j m. freed j (Bool-cases (j == i)) m;
      within = λ j m. inside j m;
      distinct = ((λ m. let e = v.listed i m in ground (arith, e, live)), v.distinct);
    }
      where
        freed :
            (j : ℕ)
            → ((j == i) ≡ true) ⊎ ((j == i) ≡ false)
            → In j (i ∷ h.free_list)
            → ((object_free i h).bits j).freed ≡ true
        freed j (inl e) m = rw e refl
        freed j (inr e) (inl s) = absurd (ground (arith, e, s))
        freed j (inr e) (inr m) = rw e (v.listed j m)

        inside : (j : ℕ) → In j (i ∷ h.free_list) → j < h.last_instance
        inside j (inl s) = subst (λ x. x < h.last_instance) (sym s) lt
        inside j (inr m) = v.within j m

sweep_one-last : (i : ℕ) (h : Heap) → (sweep_one i h).last_instance ≡ h.last_instance
unfolding sweep_one mark_clear object_free
sweep_one-last i h = elim (Bool-cases (freed_p (h.bits i))) [
  | inl t ↦ rw (t, sweep_one) refl
  | inr f ↦ elim (Bool-cases (any_mark_p (h.bits i))) [
    | inl m ↦ rw (f, m, sweep_one) refl
    | inr m ↦ rw (f, m, sweep_one) refl
  ]
]

pub sweep-IsSound :
    (i n c : ℕ) (h : Heap) → i + n ≤ h.last_instance → IsSound h → IsSound (sweep i n c h).1
unfolding sweep
sweep-IsSound i zero c h le v = v
sweep-IsSound i (suc n) c h le v =
    let same = sweep_one-last i h in
    sweep-IsSound (suc i) n (if frees i h then c + 1 else c) (sweep_one i h)
      (omega (arith, le, same)) (sweep_one-IsSound i h (omega (arith, le)) v)

pub sweep_last : (i n c : ℕ) (h : Heap) → (sweep i n c h).1.last_instance ≡ h.last_instance
unfolding sweep
sweep_last i zero c h = refl
sweep_last i (suc n) c h =
    sweep_last (suc i) n (if frees i h then c + 1 else c) (sweep_one i h) ∙ sweep_one-last i h
