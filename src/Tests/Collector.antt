-- ===== src/Tests/Collector.antt =====
-- Tables of instances to run the model of the collector of src/object.c on.
use fth.Base.{
  ℕ, ◌<◌, ◌≡◌, refl, inl, inr, true, false, ◌==◌, if◌then◌else◌, List, [], ◌∷◌, Bool-cases, Option,
  none, some, arith,
}
use fth.Memory.{update}
use fth.Collector.{
  Bits, Heap, gc_run, mark_each, gc_mark, mark_stack, mark_frames, mark_elements, mark_set,
  mark_clear, object_free, sweep_one, sweep, take_free,
}
use fth.Collector.Frames.{
  Frames, gc_frame_size, init_gc, gc_push, gc_pop, collect, live_frames, started, pushed, collected,
  Reached-IsBounded, gc_pop-gc_push,
}
use fth.Collector.Make.{make_instance}
use fth.Collector.Marking.{In, IsInstance, here, there, IsRanked}
use fth.Collector.Keeps.{gc_run-keeps, gc_run-misses_last}
use fth.Collector.Sound.{IsSound}
use fth.Collector.Spare.{IsUsed}
use fth.Collector.Fresh.{make_instance-IsFresh}

abbrev bare : Bits
bare = record { freed = false; mark = false; protect = false; permanent = false }

-- five instances without a mark
abbrev five : Heap
five = record { last_instance = 5; bits = λ _. bare; free_list = [] }

-- the third refers to the first
abbrev to_first : ℕ → List ℕ
to_first i = if i == 2 then 0 ∷ [] else []

abbrev height : ℕ → ℕ
height i = if i == 2 then 1 else 0

to_first-IsRanked : IsRanked to_first height
to_first-IsRanked i r m = elim (Bool-cases (i == 2)) [
  | inl t ↦ rw t (low (rw t at m))
  | inr f ↦ absurd (rw f at m)
]
  where
    low : In r (0 ∷ []) → height r < 1
    low (inl e) = rw e (omega arith)
    low (inr n) = absurd n

height_lt : (j : ℕ) → height j < 2
height_lt j = elim (Bool-cases (j == 2)) [ inl t ↦ rw t (omega arith) | inr f ↦ rw f (omega arith) ]

-- from the stack the third is marked, and with it the first; the others are freed but for the last
run_five :
    gc_run to_first 2 (2 ∷ []) [] five ≡ some (none, (sweep 0 4 0 (mark_set 0 (mark_set 2 five))).1)
unfolding gc_run mark_each gc_mark mark_stack mark_frames mark_elements mark_set mark_clear
    object_free sweep_one sweep take_free
run_five = refl

gc_run-keeps_example :
    (r : Option ℕ) × (h' : Heap) × (gc_run to_first 2 (2 ∷ []) [] five ≡ some (r, h'))
    × ((h'.bits 0).freed ≡ false)
gc_run-keeps_example =
    gc_run-keeps to_first height 2 (2 ∷ []) [] five 2 0 to_first-IsRanked height_lt
      (inr (inl (inl refl, refl))) (omega arith) (there {i = 2} {r = 0} refl (inl refl) (here refl))
      refl

-- the last of the table is permanent and refers to the second
abbrev five_permanent : Heap
five_permanent = record five { bits = update five.bits 4 (record bare { permanent = true }) }

abbrev last_to_second : ℕ → List ℕ
last_to_second i = if i == 4 then 1 ∷ [] else []

gc_run-misses_last_example :
    (r : Option ℕ) × (h' : Heap) × (gc_run last_to_second 2 [] [] five_permanent ≡ some (r, h'))
    × ((h'.bits 1).freed ≡ true)
    × ((h'.bits 4).permanent ≡ true)
gc_run-misses_last_example =
    gc_run-misses_last last_to_second 2 five_permanent 4 1 refl refl (λ j lt. ground (arith, lt))
      (omega arith) refl

-- a full table with one freed instance
abbrev full_table : Heap
full_table = record {
  last_instance = 32768;
  bits = λ j. if j == 7 then record bare { freed = true } else bare;
  free_list = 7 ∷ [];
}

full_table-IsSound : IsSound full_table
full_table-IsSound = record {
  listed = λ i m. listed i m;
  within = λ i m. within i m;
  distinct = ((λ n. n), tt);
}
  where
    listed : (i : ℕ) → In i (7 ∷ []) → (full_table.bits i).freed ≡ true
    listed i (inl e) = rw e refl
    listed i (inr n) = absurd n

    within : (i : ℕ) → In i (7 ∷ []) → i < 32768
    within i (inl e) = omega (arith, e)
    within i (inr n) = absurd n

abbrev no_frames : Frames
no_frames = record { gc_frame_level = 0; gc_word = λ _. none; gc_inst = λ _. [] }

make_instance-IsFresh_example :
    (i : ℕ) × (f' : Frames) × (h' : Heap) × (make_instance to_first 2 true
        (2 ∷ [])
        no_frames
        full_table
      ≡ some (i, f', h'))
    × IsSound h'
    × IsInstance h' i
    × (IsUsed to_first (2 ∷ []) (live_frames no_frames) full_table i → ⊥)
    × ((v : ℕ)
        → IsUsed to_first (2 ∷ []) (live_frames no_frames) full_table v
        → (h'.bits v).freed ≡ false)
make_instance-IsFresh_example =
    make_instance-IsFresh to_first height 2 true (2 ∷ []) no_frames full_table to_first-IsRanked
      height_lt full_table-IsSound

Reached-IsBounded_example :
    (gc_push (some 9) (collect 3 (init_gc no_frames))).gc_frame_level < gc_frame_size
Reached-IsBounded_example = Reached-IsBounded (pushed (some 9) (collected 3 (started no_frames)))

gc_pop-gc_push_example :
    live_frames (gc_pop (collect 3 (gc_push (some 9) no_frames))) ≡ live_frames no_frames
gc_pop-gc_push_example = gc_pop-gc_push (some 9) 3 no_frames (omega arith)
