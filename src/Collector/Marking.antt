-- ===== src/Collector/Marking.antt =====
-- Marking reaches all that the marked instances refer to.
use fth.Base.{
  ℕ, zero, suc, ◌<◌, ◌≡◌, refl, sym, ap, ◌∙◌, ◌⊎◌, inl, inr, Bool, true, false, ◌==◌, ==_iff, List,
  [], ◌∷◌, Bool-cases, Option, some, arith,
}
use mathlib.Core.Path.{subst}
use fth.Memory.{update}
use fth.Collector.{any_mark_p, Heap, instance_p, mark_set, mark_each, gc_mark}

abbrev pub In : ℕ → List ℕ → Type 0
In x [] = ⊥
In x (y ∷ ys) = (x ≡ y) ⊎ In x ys

abbrev pub IsMarked : Heap → ℕ → Type 0
IsMarked h i = any_mark_p (h.bits i) ≡ true

abbrev pub IsInstance : Heap → ℕ → Type 0
IsInstance h i = instance_p i h ≡ true

-- Marking adds marks, and changes nothing else.
pub record Grows (h h' : Heap) : Type 0 where
  pub same_last : h'.last_instance ≡ h.last_instance
  pub same_freed : (i : ℕ) → (h'.bits i).freed ≡ (h.bits i).freed
  pub same_list : h'.free_list ≡ h.free_list
  pub more : (i : ℕ) → IsMarked h i → IsMarked h' i

pub Grows-refl : (h : Heap) → Grows h h
Grows-refl h = record {
  same_last = refl;
  same_freed = λ i. refl;
  same_list = refl;
  more = λ i m. m;
}

pub Grows-trans : (h h' h'' : Heap) → Grows h h' → Grows h' h'' → Grows h h''
Grows-trans h h' h'' g k = record {
  same_last = k.same_last ∙ g.same_last;
  same_freed = λ i. k.same_freed i ∙ g.same_freed i;
  same_list = k.same_list ∙ g.same_list;
  more = λ i m. k.more i (g.more i m);
}

pub mark_set-Grows : (i : ℕ) (h : Heap) → Grows h (mark_set i h)
unfolding mark_set
mark_set-Grows i h = record {
  same_last = refl;
  same_freed = λ j. freed j (j == i) refl;
  same_list = refl;
  more = λ j m. ground (arith, m);
}
  where
    freed :
        (j : ℕ) (t : Bool)
        → (j == i) ≡ t
        → (update h.bits i (record (h.bits i) { mark = true }) j).freed ≡ (h.bits j).freed
    freed j true e = rw e (ap (λ k. (h.bits k).freed) (sym ((==_iff j i).0 e)))
    freed j false e = rw e refl

pub mark_set-IsMarked : (i : ℕ) (h : Heap) → IsMarked (mark_set i h) i
unfolding mark_set
mark_set-IsMarked i h = ground arith

-- An instance stays one.
pub Grows-IsInstance : (h h' : Heap) (i : ℕ) → Grows h h' → IsInstance h i → IsInstance h' i
Grows-IsInstance h h' i g t =
    let e = g.same_freed i in let l = g.same_last in let m = g.more i in ground (arith, e, l, m, t)

-- From one instance references lead to another.
pub data Leads (refs : ℕ → List ℕ) (h : Heap) : ℕ → ℕ → Type 0 where
  here : {i : ℕ} → IsInstance h i → Leads refs h i i
  there : {i r v : ℕ} → IsInstance h i → In r (refs i) → Leads refs h r v → Leads refs h i v

pub Leads-Grows :
    (refs : ℕ → List ℕ) (h h' : Heap) {i v : ℕ} → Grows h h' → Leads refs h i v → Leads refs h' i v
Leads-Grows refs h h' g (here {i = i} t) = here (Grows-IsInstance h h' i g t)
Leads-Grows refs h h' g (there {i = i} t m l) =
    there (Grows-IsInstance h h' i g t) m (Leads-Grows refs h h' g l)

-- The run comes to an end, with marks on all that the objects lead to.
abbrev pub MarksFrom : (ℕ → List ℕ) → Heap → (ℕ → Type 0) → Option Heap → Type 0
MarksFrom refs h From r =
    (h' : Heap) × (r ≡ some h')
    × Grows h h'
    × ((i v : ℕ) → From i → Leads refs h i v → IsMarked h' v)

each_next :
    (f : ℕ → Heap → Option Heap) (i : ℕ) (is : List ℕ) (h h' : Heap)
    → f i h ≡ some h'
    → mark_each f (i ∷ is) h ≡ mark_each f is h'
unfolding mark_each
each_next f i is h h' e = rw (e, mark_each) refl

each_done : (f : ℕ → Heap → Option Heap) (h : Heap) → mark_each f [] h ≡ some h
unfolding mark_each
each_done f h = refl

pub mark_each-MarksFrom :
    (refs : ℕ → List ℕ) (f : ℕ → Heap → Option Heap) (is : List ℕ) (h : Heap)
    → ((i : ℕ) → In i is → (k : Heap) → MarksFrom refs k (λ j. j ≡ i) (f i k))
    → MarksFrom refs h (λ i. In i is) (mark_each f is h)
mark_each-MarksFrom refs f [] h each =
    (h, each_done f h, Grows-refl h, λ i v none_in l. absurd none_in)
mark_each-MarksFrom refs f (i ∷ is) h each =
    let (h', run, g, marks) = each i (inl refl) h in
    let (h'', run', g', marks') = mark_each-MarksFrom refs f is h' (λ j m k. each j (inr m) k) in
    (
      h'',
      each_next f i is h h' run ∙ run',
      Grows-trans h h' h'' g g',
      λ j v m l. both h' h'' g g' marks marks' j v m l,
    )
  where
    both :
        (h' h'' : Heap)
        → Grows h h'
        → Grows h' h''
        → ((j v : ℕ) → j ≡ i → Leads refs h j v → IsMarked h' v)
        → ((j v : ℕ) → In j is → Leads refs h' j v → IsMarked h'' v)
        → (j v : ℕ) → In j (i ∷ is)
        → Leads refs h j v
        → IsMarked h'' v
    both h' h'' g g' marks marks' j v (inl e) l = g'.more v (marks j v e l)
    both h' h'' g g' marks marks' j v (inr m) l = marks' j v m (Leads-Grows refs h h' g l)

-- No chain of references comes back: each object is above those that it refers to.
abbrev pub IsRanked : (ℕ → List ℕ) → (ℕ → ℕ) → Type 0
IsRanked refs rank = (i r : ℕ) → In r (refs i) → rank r < rank i

gc_mark_instance :
    (refs : ℕ → List ℕ) (depth i : ℕ) (h : Heap)
    → instance_p i h ≡ true
    → gc_mark refs (suc depth) i h ≡ mark_each (gc_mark refs depth) (refs i) (mark_set i h)
unfolding gc_mark
gc_mark_instance refs depth i h t = rw (t, gc_mark) refl

gc_mark_other :
    (refs : ℕ → List ℕ) (depth i : ℕ) (h : Heap)
    → instance_p i h ≡ false
    → gc_mark refs (suc depth) i h ≡ some h
unfolding gc_mark
gc_mark_other refs depth i h t = rw (t, gc_mark) refl

-- Where no chain of references comes back, `gc_mark` ends within the rank of the object, changes
-- nothing but marks, and leaves a mark on every instance that the object leads to.
pub gc_mark-MarksFrom :
    (refs : ℕ → List ℕ) (rank : ℕ → ℕ) (depth i : ℕ) (h : Heap)
    → IsRanked refs rank
    → rank i < depth
    → MarksFrom refs h (λ j. j ≡ i) (gc_mark refs depth i h)
gc_mark-MarksFrom refs rank zero i h ranked lt = absurd (omega (arith, lt))
gc_mark-MarksFrom refs rank (suc depth) i h ranked lt = elim (Bool-cases (instance_p i h)) [
  | inr f ↦ (h, gc_mark_other refs depth i h f, Grows-refl h, λ j v e l. outside f j v e l)
  | inl t ↦
      let k = mark_set i h in
      let g = mark_set-Grows i h in
      let (h', run, g', marks) = mark_each-MarksFrom refs (gc_mark refs depth) (refs i) k (λ r m k'.
        gc_mark-MarksFrom refs rank depth r k' ranked (omega (arith, ranked i r m, lt))) in
      (
        h',
        gc_mark_instance refs depth i h t ∙ run,
        Grows-trans h k h' g g',
        λ j v e l. inside h' g' marks j v e l,
      )
]
  where
    outside : instance_p i h ≡ false → (j v : ℕ) → j ≡ i → Leads refs h j v → IsMarked h v
    outside f j v e (here t) = let t' = subst (IsInstance h) e t in absurd (ground (arith, t', f))
    outside f j v e (there t m l) =
        let t' = subst (IsInstance h) e t in absurd (ground (arith, t', f))

    inside :
        (h' : Heap)
        → Grows (mark_set i h) h'
        → ((r v : ℕ) → In r (refs i) → Leads refs (mark_set i h) r v → IsMarked h' v)
        → (j v : ℕ) → j ≡ i
        → Leads refs h j v
        → IsMarked h' v
    inside h' g' marks j v e (here t) =
        g'.more v (subst (IsMarked (mark_set i h)) (sym e) (mark_set-IsMarked i h))
    inside h' g' marks j v e (there {r = r} t m l) =
        marks r v (subst (λ x. In r (refs x)) e m)
          (Leads-Grows refs h (mark_set i h) (mark_set-Grows i h) l)
