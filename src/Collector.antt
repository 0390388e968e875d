-- ===== src/Collector.antt =====
-- The collector of src/object.c: the flags of the instances, the marking from the stack and the
-- frames, and the freeing of what has no mark.
pub mod Frames
pub mod Fresh
pub mod Keeps
pub mod Make
pub mod Marking
pub mod Run
pub mod Sound
pub mod Spare
pub mod Sweep
use fth.Base.{
  ℕ, zero, suc, ◌+◌, ◌-◌, Bool, true, false, not, ◌&&◌, ◌||◌, ltb, if◌then◌else◌, List, [], ◌∷◌,
  Option, none, some,
}
use fth.Memory.{update}

-- the bits of `gc_mark`
pub record Bits : Type 0 where
  pub freed : Bool
  pub mark : Bool
  pub protect : Bool
  pub permanent : Bool

-- `gc_mark > GC_FREED`, where GC_FREED is the lowest bit
abbrev pub any_mark_p : Bits → Bool
any_mark_p b = b.mark || b.protect || b.permanent

-- `gc_mark == GC_FREED`
abbrev pub freed_p : Bits → Bool
freed_p b = b.freed && not (any_mark_p b)

-- The table of the instances. An object is its place in the table; one that is no instance has a
-- place behind the last.
pub record Heap : Type 0 where
  pub last_instance : ℕ
  pub bits : ℕ → Bits
  pub free_list : List ℕ

abbrev pub instance_p : ℕ → Heap → Bool
instance_p i h = ltb i h.last_instance && not (freed_p (h.bits i))

unfoldable pub mark_set : ℕ → Heap → Heap
mark_set i h = record h { bits = update h.bits i (record (h.bits i) { mark = true }) }

unfoldable pub mark_clear : ℕ → Heap → Heap
mark_clear i h = record h { bits = update h.bits i (record (h.bits i) { mark = false }) }

unfoldable pub set_protect : Bool → ℕ → Heap → Heap
set_protect flag i h = record h { bits = update h.bits i (record (h.bits i) { protect = flag }) }

unfoldable pub gc_protect : ℕ → Heap → Heap
unfolding set_protect
gc_protect i h = if instance_p i h then set_protect true i h else h

unfoldable pub gc_unprotect : ℕ → Heap → Heap
unfolding set_protect
gc_unprotect i h = if instance_p i h then set_protect false i h else h

unfoldable pub gc_protect_set : ℕ → ℕ → Heap → Heap
unfolding gc_protect gc_unprotect
gc_protect_set out in_obj h = gc_protect in_obj (gc_unprotect out h)

unfoldable pub gc_permanent : ℕ → Heap → Heap
gc_permanent i h =
    if instance_p i h
    then record h { bits = update h.bits i (record (h.bits i) { permanent = true }) }
    else h

unfoldable pub gc_unmark : ℕ → Heap → Heap
unfolding mark_clear
gc_unmark i h = if instance_p i h then mark_clear i h else h

-- a call of `f` for each object in turn
unfoldable pub mark_each : (ℕ → Heap → Option Heap) → List ℕ → Heap → Option Heap
mark_each f [] h = some h
mark_each f (i ∷ is) h = elim (f i h) [ none ↦ none | some h' ↦ mark_each f is h' ]

-- `refs i` are the objects that the mark function of the type of `i` marks. The fuel is the depth of
-- the recursion, which has no end where an object refers to itself.
unfoldable pub gc_mark : (ℕ → List ℕ) → ℕ → ℕ → Heap → Option Heap
unfolding mark_set mark_each
gc_mark refs zero i h = none
gc_mark refs (suc depth) i h =
    let rest = mark_each (gc_mark refs depth) (refs i) (mark_set i h) in
    if instance_p i h then rest else some h

-- `for (i = -depth; i <= 0; i++)` over the cells of the stack
unfoldable pub mark_stack : List ℕ → Heap → Heap
unfolding mark_set
mark_stack [] h = h
mark_stack (i ∷ is) h = mark_stack is (if instance_p i h then mark_set i h else h)

-- the instances that one frame collects, from `gc_inst` along `next`
unfoldable pub mark_chain : List ℕ → Heap → Heap
unfolding mark_set
mark_chain [] h = h
mark_chain (i ∷ is) h = mark_chain is (mark_set i h)

-- `for (i = 0; i <= gc_frame_level; i++)`
unfoldable pub mark_frames : List (List ℕ) → Heap → Heap
unfolding mark_chain
mark_frames [] h = h
mark_frames (f ∷ fs) h = mark_frames fs (mark_chain f h)

-- the marking loop over the `n` instances from `i` on
unfoldable pub mark_elements : (ℕ → List ℕ) → ℕ → ℕ → ℕ → Heap → Option Heap
unfolding mark_each gc_mark
mark_elements refs depth i zero h = some h
mark_elements refs depth i (suc n) h =
    if any_mark_p (h.bits i)
    then elim (mark_each (gc_mark refs depth) (refs i) h) [
      | none ↦ none
      | some h' ↦ mark_elements refs depth (suc i) n h'
    ]
    else mark_elements refs depth (suc i) n h

-- OBJECT_FREE
unfoldable pub object_free : ℕ → Heap → Heap
object_free i h = record h {
  bits =
      update h.bits i (record { freed = true; mark = false; protect = false; permanent = false });
  free_list = i ∷ h.free_list;
}

-- one round of the freeing loop
unfoldable pub sweep_one : ℕ → Heap → Heap
unfolding mark_clear object_free
sweep_one i h =
    if freed_p (h.bits i)
    then h
    else if any_mark_p (h.bits i)
    then mark_clear i h
    else object_free i h

-- whether that round frees
abbrev pub frees : ℕ → Heap → Bool
frees i h = not (freed_p (h.bits i)) && not (any_mark_p (h.bits i))

-- the freeing loop over the `n` instances from `i` on, with the count of those freed before
unfoldable pub sweep : ℕ → ℕ → ℕ → Heap → ℕ × Heap
unfolding sweep_one
sweep i zero freed h = (freed, h)
sweep i (suc n) freed h = sweep (suc i) n (if frees i h then freed + 1 else freed) (sweep_one i h)

abbrev pub gc_chunk_size : ℕ
gc_chunk_size = 8192

-- the first of the free list where more than a chunk was freed; `none` is NULL
unfoldable pub take_free : ℕ × Heap → Option ℕ × Heap
take_free (freed, h) = elim h.free_list [
  | [] ↦ (none, h)
  | i ∷ is ↦ if ltb gc_chunk_size freed then (some i, record h { free_list = is }) else (none, h)
]

-- Both loops go from instance 0 to the one before the last: `for (i = 1, inst = instances[0]; i <
-- last_instance; inst = instances[i++])`.
unfoldable pub gc_run : (ℕ → List ℕ) → ℕ → List ℕ → List (List ℕ) → Heap → Option (Option ℕ × Heap)
unfolding mark_stack mark_frames mark_elements sweep take_free
gc_run refs depth stack frames h =
    elim (mark_elements refs depth 0 (h.last_instance - 1)
      (mark_frames frames (mark_stack stack h))) [
        | none ↦ none
        | some marked ↦ some (take_free (sweep 0 (h.last_instance - 1) 0 marked))
      ]
