-- ===== src/Collector/Fresh.antt =====
-- The instance that the allocation of src/object.c hands out is not in use.
use fth.Base.{
  ℕ, ◌%◌, ◌<◌, ◌≡◌, refl, inl, inr, Bool, true, false, not, ◌&&◌, ◌==◌, ==_iff, leb, List, [], ◌∷◌,
  Bool-cases, Option, none, some, arith,
}
use mathlib.Core.Path.{subst}
use fth.Memory.{update}
use fth.Collector.{Heap, gc_chunk_size, gc_run}
use fth.Collector.Frames.{Frames, live_frames, collect}
use fth.Collector.Make.{
  gc_max_objects, fresh_bits, add_chunk, next_of_table, reuse, gc_next_instance, make_instance,
}
use fth.Collector.Marking.{In, IsInstance, IsRanked}
use fth.Collector.Sound.{IsSound}
use fth.Collector.Spare.{Ends, IsSpare, pop_free, InUse, IsUsed, Gets, gc_run-Gets}

-- What an allocation hands out in a heap where the instances of `V` are in use.
record IsFresh (V : ℕ → Type 0) (i : ℕ) (h : Heap) : Type 0 where
  pub sound : IsSound h
  pub not_listed : In i h.free_list → ⊥
  pub other : V i → ⊥
  pub in_use : InUse V h
  pub inside : i < h.last_instance

IsSpare-IsFresh : (V : ℕ → Type 0) (i : ℕ) (h : Heap) → InUse V h → IsSpare i h → IsFresh V i h
IsSpare-IsFresh V i h u s = record {
  sound = s.sound;
  not_listed = s.not_listed;
  other = λ m. let f = (u i m).0 in let t = s.was_freed in ground (arith, f, t);
  in_use = u;
  inside = s.inside;
}

next_of_table-IsFresh :
    (V : ℕ → Type 0) (h : Heap)
    → IsSound h
    → InUse V h
    → IsFresh V (next_of_table h).0 (next_of_table h).1
unfolding next_of_table add_chunk
next_of_table-IsFresh V h s u = elim (Bool-cases (h.last_instance % gc_chunk_size == 0)) [
  | inl t ↦
      rw (t, next_of_table)
        (record {
          sound = record {
            listed = λ i m. rw (before i (s.within i m)) (s.listed i m);
            within = λ i m. omega (arith, s.within i m);
            distinct = s.distinct;
          };
          not_listed = λ m. omega (arith, s.within h.last_instance m);
          other = λ m. omega (arith, (u h.last_instance m).1);
          in_use = λ v m. (rw (before v (u v m).1) (u v m).0, omega (arith, (u v m).1));
          inside = omega arith;
        })
  | inr f ↦
      rw (f, next_of_table)
        (record {
          sound = record {
            listed = s.listed;
            within = λ i m. omega (arith, s.within i m);
            distinct = s.distinct;
          };
          not_listed = λ m. omega (arith, s.within h.last_instance m);
          other = λ m. omega (arith, (u h.last_instance m).1);
          in_use = λ v m. ((u v m).0, omega (arith, (u v m).1));
          inside = omega arith;
        })
]
  where
    before : (i : ℕ) → i < h.last_instance → leb h.last_instance i ≡ false
    before i lt = ground (arith, lt)

reuse-Gets :
    (V : ℕ → Type 0) (refs : ℕ → List ℕ) (depth : ℕ) (collects : Bool) (stack : List ℕ)
    (frames : List (List ℕ)) (h : Heap)
    → Ends (Gets V) (gc_run refs depth stack frames h)
    → IsSound h
    → InUse V h
    → Ends (Gets V) (reuse refs depth collects stack frames h)
unfolding reuse
reuse-Gets V refs depth collects stack frames h runs s u = go h.free_list collects refl
  where
    go :
        (l : List ℕ) (c : Bool)
        → h.free_list ≡ l
        → Ends (Gets V) (reuse refs depth c stack frames h)
    go (i ∷ is) c e = rw (e, reuse) (pop_free h i is e s, u)
    go [] true e = rw (e, reuse) runs
    go [] false e = rw (e, reuse) (s, u)

gc_next_instance-IsFresh :
    (V : ℕ → Type 0) (refs : ℕ → List ℕ) (depth : ℕ) (collects : Bool) (stack : List ℕ)
    (frames : List (List ℕ)) (h : Heap)
    → Ends (Gets V) (gc_run refs depth stack frames h)
    → IsSound h
    → InUse V h
    → Ends (λ o. IsFresh V o.0 o.1) (gc_next_instance refs depth collects stack frames h)
unfolding gc_next_instance
gc_next_instance-IsFresh V refs depth collects stack frames h runs s u =
    elim (Bool-cases (not (h.last_instance == 0) && h.last_instance % gc_max_objects == 0)) [
      | inl t ↦
          full t (reuse refs depth collects stack frames h) refl
            (reuse-Gets V refs depth collects stack frames h runs s u)
      | inr f ↦ rw (f, gc_next_instance) (next_of_table-IsFresh V h s u)
    ]
  where
    full :
        (not (h.last_instance == 0) && h.last_instance % gc_max_objects == 0) ≡ true
        → (o : Option (Option ℕ × Heap)) → reuse refs depth collects stack frames h ≡ o
        → Ends (Gets V) o
        → Ends (λ o'. IsFresh V o'.0 o'.1) (gc_next_instance refs depth collects stack frames h)
    full t none e p = absurd p
    full t (some (none, h')) e (s', u') =
        rw (t, e, gc_next_instance) (next_of_table-IsFresh V h' s' u')
    full t (some (some i, h')) e (s', u') =
        rw (t, e, gc_next_instance) (IsSpare-IsFresh V i h' u' s')

new_listed :
    (V : ℕ → Type 0) (i : ℕ) (h : Heap)
    → IsFresh V i h
    → (j : ℕ) → In j h.free_list
    → (update h.bits i fresh_bits j).freed ≡ true
new_listed V i h p j m = elim (Bool-cases (j == i)) [
  | inl e ↦ absurd (p.not_listed (subst (λ x. In x h.free_list) ((==_iff j i).0 e) m))
  | inr e ↦ rw e (p.sound.listed j m)
]

new-in_use :
    (V : ℕ → Type 0) (i : ℕ) (h : Heap)
    → IsFresh V i h
    → (v : ℕ) → V v
    → (update h.bits i fresh_bits v).freed ≡ false
new-in_use V i h p v u = elim (Bool-cases (v == i)) [
  | inl e ↦ rw e refl
  | inr e ↦ rw e (p.in_use v u).0
]

new-IsInstance :
    (V : ℕ → Type 0) (i : ℕ) (h : Heap)
    → IsFresh V i h
    → IsInstance (record h { bits = update h.bits i fresh_bits }) i
new-IsInstance V i h p = let lt = p.inside in ground (arith, lt)

-- The references of the objects have no cycle, the depth is enough for them, and the free list holds
-- freed instances of the table only, each once. Then `fth_make_instance` comes to an end, the free
-- list stays such a list, and the instance that it gives, in use now, is none of those that a root
-- other than the last of the table leads to. None of those is freed by the run of the collector that
-- it may take.
pub make_instance-IsFresh :
    (refs : ℕ → List ℕ) (rank : ℕ → ℕ) (depth : ℕ) (collects : Bool) (stack : List ℕ) (f : Frames)
    (h : Heap)
    → IsRanked refs rank
    → ((j : ℕ) → rank j < depth)
    → IsSound h
    → (i : ℕ) × (f' : Frames) × (h' : Heap) × (make_instance refs depth collects stack f h
        ≡ some (i, f', h'))
      × IsSound h'
      × IsInstance h' i
      × (IsUsed refs stack (live_frames f) h i → ⊥)
      × ((v : ℕ) → IsUsed refs stack (live_frames f) h v → (h'.bits v).freed ≡ false)
unfolding make_instance
make_instance-IsFresh refs rank depth collects stack f h ranked deep s =
    made (gc_next_instance refs depth collects stack (live_frames f) h) refl (
      gc_next_instance-IsFresh V refs depth collects stack (live_frames f) h
        (gc_run-Gets refs rank depth stack (live_frames f) h ranked deep s) s
        (λ v (r, root, lt, leads, live, in_table). (live, in_table)))
  where
    V : ℕ → Type 0
    V = IsUsed refs stack (live_frames f) h

    made :
        (o : Option (ℕ × Heap))
        → gc_next_instance refs depth collects stack (live_frames f) h ≡ o
        → Ends (λ o'. IsFresh V o'.0 o'.1) o
        → (i : ℕ) × (f' : Frames) × (h' : Heap) × (make_instance refs depth collects stack f h
            ≡ some (i, f', h'))
          × IsSound h'
          × IsInstance h' i
          × (V i → ⊥)
          × ((v : ℕ) → V v → (h'.bits v).freed ≡ false)
    made none e p = absurd p
    made (some (i, h')) e p = (
      i,
      collect i f,
      record h' { bits = update h'.bits i fresh_bits },
      rw (e, make_instance) refl,
      record { listed = new_listed V i h' p; within = p.sound.within; distinct = p.sound.distinct },
      new-IsInstance V i h' p,
      p.other,
      λ v u. new-in_use V i h' p v u,
    )
