-- ===== src/Collector/Keeps.antt =====
-- What a whole run of the collector keeps, and what it frees.
use fth.Base.{ℕ, zero, suc, ◌+◌, ◌-◌, ◌<◌, ◌≡◌, ap, ◌∙◌, true, false, List, [], Option, some, arith}
use fth.Collector.{
  any_mark_p, freed_p, Heap, mark_stack, mark_frames, mark_elements, sweep, take_free, gc_run,
}
use fth.Collector.Marking.{IsMarked, Grows, Grows-trans, Leads, here, there, Leads-Grows, IsRanked}
use fth.Collector.Run.{
  IsRoot, Referred, root-IsMarked, mark_elements-MarksFrom, mark_stack-Grows, mark_frames-Grows,
  elements_done, elements_skip,
}
use fth.Collector.Sweep.{sweep-IsMarked, sweep-frees, sweep_above, take_free-bits, run_of}

reached :
    (refs : ℕ → List ℕ) (h k m : Heap) (n i v : ℕ)
    → Grows h k
    → Grows k m
    → IsMarked k i
    → i < n
    → ((r w : ℕ) → Referred refs k 0 n r → Leads refs k r w → IsMarked m w)
    → Leads refs h i v
    → IsMarked m v
reached refs h k m n i v g g' marked lt marks (here t) = g'.more v marked
reached refs h k m n i v g g' marked lt marks (there {r = r} t d l) =
    marks r v (i, omega arith, omega (arith, lt), marked, d) (Leads-Grows refs h k g l)

-- The references of the objects have no cycle and the depth is enough for them. Then a run of the
-- collector comes to an end. It frees no instance that a root leads to along references from
-- instance to instance, where a root is an instance on the stack, one that a frame has collected, or
-- one marked, protected or permanent before, and where the root is not the last of the table.
pub gc_run-keeps :
    (refs : ℕ → List ℕ) (rank : ℕ → ℕ) (depth : ℕ) (stack : List ℕ) (frames : List (List ℕ))
    (h : Heap) (i v : ℕ)
    → IsRanked refs rank
    → ((j : ℕ) → rank j < depth)
    → IsRoot h stack frames i
    → suc i < h.last_instance
    → Leads refs h i v
    → (h.bits v).freed ≡ false
    → (r : Option ℕ) × (h' : Heap) × (gc_run refs depth stack frames h ≡ some (r, h'))
      × ((h'.bits v).freed ≡ false)
gc_run-keeps refs rank depth stack frames h i v ranked deep root lt leads live =
    let s = mark_stack stack h in
    let k = mark_frames frames s in
    let n = h.last_instance - 1 in
    let g = Grows-trans h s k (mark_stack-Grows stack h) (mark_frames-Grows frames s) in
    let (m, run, g', marks) = mark_elements-MarksFrom refs rank depth 0 n k ranked deep in
    let swept = sweep 0 n 0 m in
    (
      (take_free swept).0,
      (take_free swept).1,
      run_of refs depth stack frames h m run,
      ap (λ b. b.freed) (take_free-bits swept.0 swept.1 v)
          ∙ sweep-IsMarked 0 n 0 v m (
              reached refs h k m n i v g g' (root-IsMarked h stack frames i root)
                (omega (arith, lt)) marks leads)
          ∙ g'.same_freed v
          ∙ g.same_freed v
          ∙ live,
    )

-- No mark among the `n` instances from `i` on, so nothing is marked from there.
elements_unmarked :
    (refs : ℕ → List ℕ) (depth i n : ℕ) (h : Heap)
    → ((j : ℕ) → j < i + n → any_mark_p (h.bits j) ≡ false)
    → mark_elements refs depth i n h ≡ some h
elements_unmarked refs depth i zero h bare = elements_done refs depth i h
elements_unmarked refs depth i (suc n) h bare =
    elements_skip refs depth i n h (bare i (omega arith))
    ∙ elements_unmarked refs depth (suc i) n h (λ j lt. bare j (omega (arith, lt)))

-- The stack and the frames are empty, and no instance but the last of the table has a mark. Then a
-- run ends and frees every other instance, whatever the last, a permanent one, refers to.
pub gc_run-misses_last :
    (refs : ℕ → List ℕ) (depth : ℕ) (h : Heap) (l v : ℕ)
    → h.last_instance ≡ suc l
    → (h.bits l).permanent ≡ true
    → ((j : ℕ) → j < l → any_mark_p (h.bits j) ≡ false)
    → v < l
    → freed_p (h.bits v) ≡ false
    → (r : Option ℕ) × (h' : Heap) × (gc_run refs depth [] [] h ≡ some (r, h'))
      × ((h'.bits v).freed ≡ true)
      × ((h'.bits l).permanent ≡ true)
unfolding mark_stack mark_frames
gc_run-misses_last refs depth h l v last permanent bare lt live =
    let n = h.last_instance - 1 in
    let run = elements_unmarked refs depth 0 n h (λ j lt'. bare j (omega (arith, lt', last))) in
    let swept = sweep 0 n 0 h in
    (
      (take_free swept).0,
      (take_free swept).1,
      run_of refs depth [] [] h h run,
      ap (λ b. b.freed) (take_free-bits swept.0 swept.1 v)
          ∙ sweep-frees 0 n 0 v h (omega arith) (omega (arith, lt, last)) live (bare v lt),
      ap (λ b. b.permanent)
            (take_free-bits swept.0 swept.1 l ∙ sweep_above 0 n 0 l h (omega (arith, last)))
          ∙ permanent,
    )
