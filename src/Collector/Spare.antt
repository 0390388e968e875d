-- ===== src/Collector/Spare.antt =====
-- What a run of the collector hands out as spare, and what it leaves in use.
use fth.Base.{
  ℕ, suc, ◌-◌, ◌<◌, ◌≡◌, refl, sym, ◌∙◌, inl, inr, true, false, ltb, List, [], ◌∷◌, Bool-cases,
  Option, none, some, arith,
}
use mathlib.Core.Path.{subst}
use fth.Collector.{Heap, gc_chunk_size, gc_run, sweep, take_free, mark_stack, mark_frames}
use fth.Collector.Keeps.{gc_run-keeps}
use fth.Collector.Marking.{In, Leads, Grows-trans, IsRanked}
use fth.Collector.Run.{IsRoot, mark_elements-MarksFrom, mark_stack-Grows, mark_frames-Grows}
use fth.Collector.Sweep.{run_of}
use fth.Collector.Sound.{
  IsSound, IsDistinct, SameFree-IsSound, Grows-SameFree, sweep-IsSound, sweep_last,
}

-- The run comes to an end, with a result that has the property.
abbrev pub Ends : {A : Type 0} → (A → Type 0) → Option A → Type 0
Ends P none = ⊥
Ends P (some x) = P x

-- a sound heap, and an instance that no list holds any more
pub record IsSpare (i : ℕ) (h : Heap) : Type 0 where
  pub sound : IsSound h
  pub was_freed : (h.bits i).freed ≡ true
  pub not_listed : In i h.free_list → ⊥
  pub inside : i < h.last_instance

abbrev pub Hands : Option ℕ × Heap → Type 0
Hands (none, h) = IsSound h
Hands (some i, h) = IsSpare i h

pub pop_free :
    (h : Heap) (i : ℕ) (is : List ℕ)
    → h.free_list ≡ i ∷ is
    → IsSound h
    → IsSpare i (record h { free_list = is })
pop_free h i is e v =
    let d = subst IsDistinct e v.distinct in
    record {
      sound = record {
        listed = λ j m. v.listed j (subst (In j) (sym e) (inr m));
        within = λ j m. v.within j (subst (In j) (sym e) (inr m));
        distinct = d.1;
      };
      was_freed = v.listed i (subst (In i) (sym e) (inl refl));
      not_listed = d.0;
      inside = v.within i (subst (In i) (sym e) (inl refl));
    }

take_free-Hands : (c : ℕ) (h : Heap) → IsSound h → Hands (take_free (c, h))
unfolding take_free
take_free-Hands c h v = go h.free_list refl
  where
    go : (l : List ℕ) → h.free_list ≡ l → Hands (take_free (c, h))
    go [] e = rw (e, take_free) v
    go (i ∷ is) e = elim (Bool-cases (ltb gc_chunk_size c)) [
      | inl t ↦ rw (e, t, take_free) (pop_free h i is e v)
      | inr f ↦ rw (e, f, take_free) v
    ]

gc_run-Hands :
    (refs : ℕ → List ℕ) (rank : ℕ → ℕ) (depth : ℕ) (stack : List ℕ) (frames : List (List ℕ))
    (h : Heap)
    → IsRanked refs rank
    → ((j : ℕ) → rank j < depth)
    → IsSound h
    → Ends Hands (gc_run refs depth stack frames h)
gc_run-Hands refs rank depth stack frames h ranked deep v =
    let s = mark_stack stack h in
    let k = mark_frames frames s in
    let n = h.last_instance - 1 in
    let g = Grows-trans h s k (mark_stack-Grows stack h) (mark_frames-Grows frames s) in
    let (m, run, g', marks) = mark_elements-MarksFrom refs rank depth 0 n k ranked deep in
    let a = Grows-trans h k m g g' in
    let last = a.same_last in
    let swept = sweep 0 n 0 m in
    subst (Ends Hands) (sym (run_of refs depth stack frames h m run)) (
      take_free-Hands swept.0 swept.1 (
        sweep-IsSound 0 n 0 m (omega (arith, last))
          (SameFree-IsSound h m (Grows-SameFree h m a) v)))

-- the instances of `V` are in use
abbrev pub InUse : (ℕ → Type 0) → Heap → Type 0
InUse V h = (v : ℕ) → V v → ((h.bits v).freed ≡ false) × (v < h.last_instance)

take_free-last : (c : ℕ) (h : Heap) → (take_free (c, h)).1.last_instance ≡ h.last_instance
unfolding take_free
take_free-last c h = go h.free_list refl
  where
    go : (l : List ℕ) → h.free_list ≡ l → (take_free (c, h)).1.last_instance ≡ h.last_instance
    go [] e = rw (e, take_free) refl
    go (i ∷ is) e = elim (Bool-cases (ltb gc_chunk_size c)) [
      | inl t ↦ rw (e, t, take_free) refl
      | inr f ↦ rw (e, f, take_free) refl
    ]

-- what the search for a spare instance leaves
abbrev pub Gets : (ℕ → Type 0) → Option ℕ × Heap → Type 0
Gets V (none, h) = IsSound h × InUse V h
Gets V (some i, h) = IsSpare i h × InUse V h

keep_use : (V : ℕ → Type 0) (r : Option ℕ) (h : Heap) → Hands (r, h) → InUse V h → Gets V (r, h)
keep_use V none h s u = (s, u)
keep_use V (some i) h s u = (s, u)

gc_run_last :
    (refs : ℕ → List ℕ) (rank : ℕ → ℕ) (depth : ℕ) (stack : List ℕ) (frames : List (List ℕ))
    (h : Heap)
    → IsRanked refs rank
    → ((j : ℕ) → rank j < depth)
    → Ends (λ o. o.1.last_instance ≡ h.last_instance) (gc_run refs depth stack frames h)
gc_run_last refs rank depth stack frames h ranked deep =
    let s = mark_stack stack h in
    let k = mark_frames frames s in
    let n = h.last_instance - 1 in
    let g = Grows-trans h s k (mark_stack-Grows stack h) (mark_frames-Grows frames s) in
    let (m, run, g', marks) = mark_elements-MarksFrom refs rank depth 0 n k ranked deep in
    let swept = sweep 0 n 0 m in
    subst (Ends (λ o. o.1.last_instance ≡ h.last_instance))
      (sym (run_of refs depth stack frames h m run))
      (take_free-last swept.0 swept.1 ∙ sweep_last 0 n 0 m ∙ g'.same_last ∙ g.same_last)

-- the instances that a root other than the last of the table leads to
abbrev pub IsUsed : (ℕ → List ℕ) → List ℕ → List (List ℕ) → Heap → ℕ → Type 0
IsUsed refs stack frames h v =
    (r : ℕ) × IsRoot h stack frames r
    × (suc r < h.last_instance)
    × Leads refs h r v
    × ((h.bits v).freed ≡ false)
    × (v < h.last_instance)

pub gc_run-Gets :
    (refs : ℕ → List ℕ) (rank : ℕ → ℕ) (depth : ℕ) (stack : List ℕ) (frames : List (List ℕ))
    (h : Heap)
    → IsRanked refs rank
    → ((j : ℕ) → rank j < depth)
    → IsSound h
    → Ends (Gets (IsUsed refs stack frames h)) (gc_run refs depth stack frames h)
gc_run-Gets refs rank depth stack frames h ranked deep s =
    go (gc_run refs depth stack frames h) refl
      (gc_run-Hands refs rank depth stack frames h ranked deep s)
      (gc_run_last refs rank depth stack frames h ranked deep)
  where
    go :
        (o : Option (Option ℕ × Heap))
        → gc_run refs depth stack frames h ≡ o
        → Ends Hands o
        → Ends (λ o'. o'.1.last_instance ≡ h.last_instance) o
        → Ends (Gets (IsUsed refs stack frames h)) o
    go none e p l = p
    go (some (r, h')) e p l = keep_use (IsUsed refs stack frames h) r h' p (λ v u. kept v u)
      where
        kept :
            (v : ℕ)
            → IsUsed refs stack frames h v
            → ((h'.bits v).freed ≡ false) × (v < h'.last_instance)
        kept v (i, root, lt, leads, live, in_table) =
            let (r', h'', run, f) =
              gc_run-keeps refs rank depth stack frames h i v ranked deep root lt leads live in
            (
              subst (Ends (λ o'. (o'.1.bits v).freed ≡ false)) (sym run ∙ e) f,
              omega (arith, l, in_table),
            )
