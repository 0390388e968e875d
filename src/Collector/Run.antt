-- ===== src/Collector/Run.antt =====
-- A run of the collector keeps what the roots lead to, but for what only the last instance of the
-- table refers to.
use fth.Base.{
  ℕ, zero, suc, ◌+◌, ◌≤◌, ◌<◌, ◌≡◌, refl, sym, ◌∙◌, ◌⊎◌, inl, inr, true, false, ◌==◌, ==_iff, List,
  [], ◌∷◌, Bool-cases, some, arith,
}
use mathlib.Core.Path.{subst}
use fth.Collector.{
  any_mark_p, Heap, instance_p, mark_set, mark_each, gc_mark, mark_stack, mark_chain, mark_frames,
  mark_elements,
}
use fth.Collector.Marking.{
  In, IsMarked, IsInstance, Grows, Grows-refl, Grows-trans, Grows-IsInstance, mark_set-Grows,
  mark_set-IsMarked, Leads, Leads-Grows, MarksFrom, mark_each-MarksFrom, IsRanked,
  gc_mark-MarksFrom,
}

pub mark_stack-Grows : (is : List ℕ) (h : Heap) → Grows h (mark_stack is h)
unfolding mark_stack
mark_stack-Grows [] h = Grows-refl h
mark_stack-Grows (i ∷ is) h = elim (Bool-cases (instance_p i h)) [
  | inl t ↦ rw t (
      Grows-trans h (mark_set i h) (mark_stack is (mark_set i h)) (mark_set-Grows i h)
        (mark_stack-Grows is (mark_set i h)))
  | inr f ↦ rw f (mark_stack-Grows is h)
]

mark_chain-Grows : (is : List ℕ) (h : Heap) → Grows h (mark_chain is h)
unfolding mark_chain
mark_chain-Grows [] h = Grows-refl h
mark_chain-Grows (i ∷ is) h =
    Grows-trans h (mark_set i h) (mark_chain is (mark_set i h)) (mark_set-Grows i h)
      (mark_chain-Grows is (mark_set i h))

pub mark_frames-Grows : (fs : List (List ℕ)) (h : Heap) → Grows h (mark_frames fs h)
unfolding mark_frames
mark_frames-Grows [] h = Grows-refl h
mark_frames-Grows (f ∷ fs) h =
    Grows-trans h (mark_chain f h) (mark_frames fs (mark_chain f h)) (mark_chain-Grows f h)
      (mark_frames-Grows fs (mark_chain f h))

mark_stack-IsMarked :
    (is : List ℕ) (h : Heap) (i : ℕ) → In i is → IsInstance h i → IsMarked (mark_stack is h) i
unfolding mark_stack
mark_stack-IsMarked [] h i m t = absurd m
mark_stack-IsMarked (j ∷ is) h i (inl e) t =
    let present : instance_p j h ≡ true = subst (IsInstance h) e t in
    rw (present, mark_stack)
      ((mark_stack-Grows is (mark_set j h)).more i
        (subst (IsMarked (mark_set j h)) (sym e) (mark_set-IsMarked j h)))
mark_stack-IsMarked (j ∷ is) h i (inr m) t = elim (Bool-cases (instance_p j h)) [
  | inl u ↦
      rw (u, mark_stack) (mark_stack-IsMarked is (mark_set j h) i m (stays (mark_set-Grows j h)))
  | inr f ↦ rw (f, mark_stack) (mark_stack-IsMarked is h i m t)
]
  where
    stays : Grows h (mark_set j h) → IsInstance (mark_set j h) i
    stays g = Grows-IsInstance h (mark_set j h) i g t

mark_chain-IsMarked : (is : List ℕ) (h : Heap) (i : ℕ) → In i is → IsMarked (mark_chain is h) i
unfolding mark_chain
mark_chain-IsMarked [] h i m = absurd m
mark_chain-IsMarked (j ∷ is) h i (inl e) =
    (mark_chain-Grows is (mark_set j h)).more i
      (subst (IsMarked (mark_set j h)) (sym e) (mark_set-IsMarked j h))
mark_chain-IsMarked (j ∷ is) h i (inr m) = mark_chain-IsMarked is (mark_set j h) i m

-- the instances of some frame
abbrev pub InSome : ℕ → List (List ℕ) → Type 0
InSome i [] = ⊥
InSome i (f ∷ fs) = In i f ⊎ InSome i fs

mark_frames-IsMarked :
    (fs : List (List ℕ)) (h : Heap) (i : ℕ) → InSome i fs → IsMarked (mark_frames fs h) i
unfolding mark_frames
mark_frames-IsMarked [] h i m = absurd m
mark_frames-IsMarked (f ∷ fs) h i (inl m) =
    (mark_frames-Grows fs (mark_chain f h)).more i (mark_chain-IsMarked f h i m)
mark_frames-IsMarked (f ∷ fs) h i (inr m) = mark_frames-IsMarked fs (mark_chain f h) i m

-- what the collector starts from: instances with a mark, on the stack, or collected by a frame
abbrev pub IsRoot : Heap → List ℕ → List (List ℕ) → ℕ → Type 0
IsRoot h stack frames i = IsMarked h i ⊎ (In i stack × IsInstance h i) ⊎ InSome i frames

pub root-IsMarked :
    (h : Heap) (stack : List ℕ) (frames : List (List ℕ)) (i : ℕ)
    → IsRoot h stack frames i
    → IsMarked (mark_frames frames (mark_stack stack h)) i
root-IsMarked h stack frames i (inl m) =
    (mark_frames-Grows frames (mark_stack stack h)).more i ((mark_stack-Grows stack h).more i m)
root-IsMarked h stack frames i (inr (inl (m, t))) =
    (mark_frames-Grows frames (mark_stack stack h)).more i (mark_stack-IsMarked stack h i m t)
root-IsMarked h stack frames i (inr (inr m)) = mark_frames-IsMarked frames (mark_stack stack h) i m

elements_next :
    (refs : ℕ → List ℕ) (depth i n : ℕ) (h h' : Heap)
    → any_mark_p (h.bits i) ≡ true
    → mark_each (gc_mark refs depth) (refs i) h ≡ some h'
    → mark_elements refs depth i (suc n) h ≡ mark_elements refs depth (suc i) n h'
unfolding mark_elements
elements_next refs depth i n h h' t e = rw (t, e, mark_elements) refl

pub elements_skip :
    (refs : ℕ → List ℕ) (depth i n : ℕ) (h : Heap)
    → any_mark_p (h.bits i) ≡ false
    → mark_elements refs depth i (suc n) h ≡ mark_elements refs depth (suc i) n h
unfolding mark_elements
elements_skip refs depth i n h f = rw (f, mark_elements) refl

pub elements_done :
    (refs : ℕ → List ℕ) (depth i : ℕ) (h : Heap) → mark_elements refs depth i 0 h ≡ some h
unfolding mark_elements
elements_done refs depth i h = refl

-- `r` is referred to by a marked one of the `n` instances from `i` on.
abbrev pub Referred : (ℕ → List ℕ) → Heap → ℕ → ℕ → ℕ → Type 0
Referred refs h i n r = (j : ℕ) × (i ≤ j) × (j < i + n) × IsMarked h j × In r (refs j)

pub mark_elements-MarksFrom :
    (refs : ℕ → List ℕ) (rank : ℕ → ℕ) (depth i n : ℕ) (h : Heap)
    → IsRanked refs rank
    → ((j : ℕ) → rank j < depth)
    → MarksFrom refs h (Referred refs h i n) (mark_elements refs depth i n h)
mark_elements-MarksFrom refs rank depth i zero h ranked deep =
    (h, elements_done refs depth i h, Grows-refl h, λ r v m l. absurd (empty r m))
  where
    empty : (r : ℕ) → Referred refs h i 0 r → ⊥
    empty r (j, a, b, c, d) = omega (arith, a, b)
mark_elements-MarksFrom refs rank depth i (suc n) h ranked deep =
    elim (Bool-cases (any_mark_p (h.bits i))) [
      | inr f ↦
          let (h', run, g, marks) =
            mark_elements-MarksFrom refs rank depth (suc i) n h ranked deep in
          (h', elements_skip refs depth i n h f ∙ run, g, λ r v m l. skipped f h' marks r v m l)
      | inl t ↦
          let (k, run, g, marks) =
            mark_each-MarksFrom refs (gc_mark refs depth) (refs i) h
              (λ r m h'. gc_mark-MarksFrom refs rank depth r h' ranked (deep r)) in
          let (h', run', g', marks') =
            mark_elements-MarksFrom refs rank depth (suc i) n k ranked deep in
          (
            h',
            elements_next refs depth i n h k t run ∙ run',
            Grows-trans h k h' g g',
            λ r v m l. followed k h' g g' marks marks' r v m l,
          )
    ]
  where
    skipped :
        any_mark_p (h.bits i) ≡ false
        → (h' : Heap) → ((r v : ℕ) → Referred refs h (suc i) n r → Leads refs h r v → IsMarked h' v)
        → (r v : ℕ) → Referred refs h i (suc n) r
        → Leads refs h r v
        → IsMarked h' v
    skipped f h' marks r v (j, a, b, c, d) l = elim (Bool-cases (j == i)) [
      | inl e ↦ let c' = subst (IsMarked h) ((==_iff j i).0 e) c in absurd (ground (arith, c', f))
      | inr e ↦ marks r v (j, ground (arith, a, e), omega (arith, b), c, d) l
    ]

    followed :
        (k h' : Heap)
        → Grows h k
        → Grows k h'
        → ((r v : ℕ) → In r (refs i) → Leads refs h r v → IsMarked k v)
        → ((r v : ℕ) → Referred refs k (suc i) n r → Leads refs k r v → IsMarked h' v)
        → (r v : ℕ) → Referred refs h i (suc n) r
        → Leads refs h r v
        → IsMarked h' v
    followed k h' g g' marks marks' r v (j, a, b, c, d) l = elim (Bool-cases (j == i)) [
      | inl e ↦ g'.more v (marks r v (subst (λ x. In r (refs x)) ((==_iff j i).0 e) d) l)
      | inr e ↦
          marks' r v (j, ground (arith, a, e), omega (arith, b), g.more j c, d)
            (Leads-Grows refs h k g l)
    ]
