-- ===== src/Collector/Make.antt =====
-- The allocation of instances in src/object.c.
use fth.Base.{
  ℕ, ◌+◌, ◌*◌, ◌%◌, Bool, true, false, not, ◌&&◌, ◌==◌, ltb, leb, if◌then◌else◌, List, [], ◌∷◌,
  Option, none, some,
}
use fth.Memory.{update}
use fth.Collector.{Bits, Heap, gc_chunk_size, gc_run}
use fth.Collector.Frames.{Frames, collect, live_frames}

abbrev pub gc_max_objects : ℕ
gc_max_objects = gc_chunk_size * 4

-- FTH_REALLOC of the table by a chunk of cleared instances with the mark GC_FREED
unfoldable pub add_chunk : Heap → Heap
add_chunk h = record h {
  bits = λ j.
      if leb h.last_instance j && ltb j (gc_chunk_size + h.last_instance)
      then record { freed = true; mark = false; protect = false; permanent = false }
      else h.bits j;
}

-- `current == NULL`: the next of the table
unfoldable pub next_of_table : Heap → ℕ × Heap
unfolding add_chunk
next_of_table h =
    let grown = if h.last_instance % gc_chunk_size == 0 then add_chunk h else h in
    (h.last_instance, record grown { last_instance = h.last_instance + 1 })

-- `collects` is `fth_gc_on_p && !fth_signal_caught_p`
unfoldable pub reuse :
    (ℕ → List ℕ) → ℕ → Bool → List ℕ → List (List ℕ) → Heap → Option (Option ℕ × Heap)
unfolding gc_run
reuse refs depth collects stack frames h = elim h.free_list [
  | i ∷ is ↦ some (some i, record h { free_list = is })
  | [] ↦ if collects then gc_run refs depth stack frames h else some (none, h)
]

unfoldable pub gc_next_instance :
    (ℕ → List ℕ) → ℕ → Bool → List ℕ → List (List ℕ) → Heap → Option (ℕ × Heap)
unfolding reuse next_of_table
gc_next_instance refs depth collects stack frames h =
    let full = not (h.last_instance == 0) && h.last_instance % gc_max_objects == 0 in
    elim (if full then reuse refs depth collects stack frames h else some (none, h)) [
      | none ↦ none
      | some (none, h') ↦ some (next_of_table h')
      | some (some i, h') ↦ some (i, h')
    ]

-- GC_MARK alone
abbrev pub fresh_bits : Bits
fresh_bits = record { freed = false; mark = true; protect = false; permanent = false }

-- The flags and the chains of a fresh instance; the type of the object is an object type.
unfoldable pub make_instance :
    (ℕ → List ℕ) → ℕ → Bool → List ℕ → Frames → Heap → Option (ℕ × Frames × Heap)
unfolding gc_next_instance collect
make_instance refs depth collects stack f h =
    elim (gc_next_instance refs depth collects stack (live_frames f) h) [
      | none ↦ none
      | some (i, h') ↦ some (i, collect i f, record h' { bits = update h'.bits i fresh_bits })
    ]
