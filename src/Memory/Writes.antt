-- ===== src/Memory/Writes.antt =====
-- What a store, a move, a reallocation and a filling loop make of the list that a run of cells
-- holds.
use fth.Base.{
  ℕ, zero, suc, ◌+◌, ◌≤◌, ◌<◌, ◌≡◌, refl, ap, ◌∙◌, ◌⊎◌, inl, ◌∷◌, Option, none, some, arith, set,
  ltb, if◌then◌else◌,
}
use mathlib.Core.Path.{ap₂}
use fth.Memory.{Block, update, moved, realloc, load, store, memmove, store_each}
use fth.Memory.Slice.{slice, slice_ext}

module _ {ℓ} {A : Type ℓ} where
  update_same : (f : ℕ → A) (i : ℕ) (v : A) → update f i v i ≡ v
  update_same f i v = ground arith

  pub update_ne : (f : ℕ → A) (i : ℕ) (v : A) (j : ℕ) → (j < i) ⊎ (i < j) → update f i v j ≡ f j
  update_ne f i v j h = ground arith

  moved_inside :
      (f g : ℕ → A) (dst src n k : ℕ) → k < n → moved f g dst src n (dst + k) ≡ g (src + k)
  moved_inside f g dst src n k h = ground arith

  pub moved_outside :
      (f g : ℕ → A) (dst src n j : ℕ) → (j < dst) ⊎ (dst + n ≤ j) → moved f g dst src n j ≡ f j
  moved_outside f g dst src n j h = ground arith

  pub slice-update_outside :
      (f : ℕ → A) (j : ℕ) (v : A) (i n : ℕ)
      → (j < i) ⊎ (i + n ≤ j)
      → slice (update f j v) i n ≡ slice f i n
  slice-update_outside f j v i n h =
      slice_ext (update f j v) f i i n (λ k lt. update_ne f j v (i + k) (apart h k lt))
    where
      apart : (j < i) ⊎ (i + n ≤ j) → (k : ℕ) → k < n → (i + k < j) ⊎ (j < i + k)
      apart h k lt = omega arith

  pub update_eq : (f : ℕ → A) (i : ℕ) (v : A) (j : ℕ) → j ≡ i → update f i v j ≡ v
  update_eq f i v j h = ground arith

  pub slice-update_at :
      (f : ℕ → A) (v : A) (i n k j : ℕ)
      → k < n
      → j ≡ i + k
      → slice (update f j v) i n ≡ set (slice f i n) k v
  slice-update_at f v i zero k j h e = absurd (omega arith)
  slice-update_at f v i (suc n) zero j h e =
      ap₂ ◌∷◌ (update_eq f j v i (omega arith))
        (slice-update_outside f j v (suc i) n (inl (omega arith)))
  slice-update_at f v i (suc n) (suc k) j h e =
      ap₂ ◌∷◌ (update_ne f j v i (inl (omega arith)))
        (slice-update_at f v (suc i) n k j (omega arith) (omega arith))

  pub slice-moved_inside :
      (f g : ℕ → A) (dst src n : ℕ) → slice (moved f g dst src n) dst n ≡ slice g src n
  slice-moved_inside f g dst src n =
      slice_ext (moved f g dst src n) g dst src n (moved_inside f g dst src n)

  pub slice-moved_outside :
      (f g : ℕ → A) (dst src n i m : ℕ)
      → (i + m ≤ dst) ⊎ (dst + n ≤ i)
      → slice (moved f g dst src n) i m ≡ slice f i m
  slice-moved_outside f g dst src n i m h =
      slice_ext (moved f g dst src n) f i i m
        (λ k lt. moved_outside f g dst src n (i + k) (apart h k lt))
    where
      apart : (i + m ≤ dst) ⊎ (dst + n ≤ i) → (k : ℕ) → k < m → (i + k < dst) ⊎ (dst + n ≤ i + k)
      apart h k lt = omega arith

  pub slice-realloc :
      (fresh : ℕ → A) (b : Block A) (len i n : ℕ)
      → i + n ≤ b.size
      → slice (realloc fresh b len).cell i n ≡ slice b.cell i n
  unfolding realloc
  slice-realloc fresh b len i n h = slice_ext _ b.cell i i n (λ k lt. kept k lt)
    where
      kept :
          (k : ℕ)
          → k < n
          → (if ltb (i + k) b.size then b.cell (i + k) else fresh (i + k)) ≡ b.cell (i + k)
      kept k lt = ground arith

  pub load-in : (b : Block A) (i : ℕ) → i < b.size → load b i ≡ some (b.cell i)
  unfolding load
  load-in b i h = ground arith

  pub store-in :
      (b : Block A) (i : ℕ) (v : A)
      → i < b.size
      → store b i v ≡ some (record b { cell = update b.cell i v })
  unfolding store
  store-in b i v h = ground arith

  pub memmove-in :
      (to : Block A) (dst : ℕ) (from : Block A) (src n : ℕ)
      → dst + n ≤ to.size
      → src + n ≤ from.size
      → memmove to dst from src n ≡ some (record to { cell = moved to.cell from.cell dst src n })
  unfolding memmove
  memmove-in to dst from src n h k = ground arith

  pub memmove-out :
      (to : Block A) (dst : ℕ) (from : Block A) (src n : ℕ)
      → (to.size < dst + n) ⊎ (from.size < src + n)
      → memmove to dst from src n ≡ none
  unfolding memmove
  memmove-out to dst from src n h = ground arith

  -- A filling loop whose values are all there writes them to its run of cells and nothing else.
  pub record Filled (b : Block A) (g : ℕ → A) (off start n : ℕ) (b' : Block A) : Type ℓ where
    pub same_size : b'.size ≡ b.size
    pub outside : (j : ℕ) → (j < off + start) ⊎ (off + start + n ≤ j) → b'.cell j ≡ b.cell j
    pub inside : (k : ℕ) → k < n → b'.cell (off + (start + k)) ≡ g (start + k)

  pub Filled-suc :
      (b : Block A) (g : ℕ → A) (off start n : ℕ) (b' : Block A)
      → Filled (record b { cell = update b.cell (off + start) (g start) }) g off (suc start) n b'
      → Filled b g off start (suc n) b'
  Filled-suc b g off start n b' f = record {
    same_size = f.same_size;
    outside = λ j h. out j h (f.outside j);
    inside = λ k h. inn k h;
  }
    where
      out :
          (j : ℕ)
          → (j < off + start) ⊎ (off + start + suc n ≤ j)
          → ((j < off + suc start) ⊎ (off + suc start + n ≤ j)
              → b'.cell j ≡ update b.cell (off + start) (g start) j)
          → b'.cell j ≡ b.cell j
      out j h old = old (omega arith) ∙ update_ne b.cell (off + start) (g start) j (omega arith)

      inn : (k : ℕ) → k < suc n → b'.cell (off + (start + k)) ≡ g (start + k)
      inn zero h =
          let e : start + 0 ≡ start = omega arith in
          rw e (
            f.outside (off + start) (inl (omega arith))
            ∙ update_same b.cell (off + start) (g start))
      inn (suc k) h =
          let e : start + suc k ≡ suc start + k = omega arith in rw e (f.inside k (omega arith))

  store_each_done :
      (value : ℕ → Option A) (off start : ℕ) (b : Block A) → store_each value off start 0 b ≡ some b
  unfolding store_each
  store_each_done value off start b = refl

  store_each_step :
      (value : ℕ → Option A) (v : A) (off start n : ℕ) (b : Block A)
      → value start ≡ some v
      → off + start < b.size
      → store_each value off start (suc n) b
        ≡ store_each value off (suc start) n (record b { cell = update b.cell (off + start) v })
  unfolding store_each
  store_each_step value v off start n b e lt = ground (arith, store-in b (off + start) v)

  pub store_each-Filled :
      (value : ℕ → Option A) (g : ℕ → A) (off start n : ℕ) (b : Block A)
      → ((k : ℕ) → k < n → value (start + k) ≡ some (g (start + k)))
      → off + start + n ≤ b.size
      → (b' : Block A) × (store_each value off start n b ≡ some b') × Filled b g off start n b'
  store_each-Filled value g off start zero b h fits = (
    b,
    store_each_done value off start b,
    record { same_size = refl; outside = λ j _. refl; inside = λ k lt. absurd (omega arith) },
  )
  store_each-Filled value g off start (suc n) b h fits =
      let v0 : value start ≡ some (g start) = here (h 0 (omega arith)) in
      let (b', run, filled) =
        store_each-Filled value g off (suc start) n
          (record b { cell = update b.cell (off + start) (g start) })
          (λ k lt. later k (h (suc k) (omega arith))) (omega arith) in
      (
        b',
        store_each_step value (g start) off start n b v0 (omega arith) ∙ run,
        Filled-suc b g off start n b' filled,
      )
    where
      here : value (start + 0) ≡ some (g (start + 0)) → value start ≡ some (g start)
      here e = let z : start + 0 ≡ start = omega arith in rw z at e

      later :
          (k : ℕ)
          → value (start + suc k) ≡ some (g (start + suc k))
          → value (suc start + k) ≡ some (g (suc start + k))
      later k e = let z : start + suc k ≡ suc start + k = omega arith in rw z at e

  -- So the run holds the values in order, and what stands before it stays.
  pub slice-Filled :
      (b : Block A) (g : ℕ → A) (off start n : ℕ) (b' : Block A)
      → Filled b g off start n b'
      → slice b'.cell (off + start) n ≡ slice g start n
  slice-Filled b g off start n b' f = slice_ext b'.cell g (off + start) start n (λ k lt.
      let e : off + start + k ≡ off + (start + k) = omega arith in ap b'.cell e ∙ f.inside k lt)

  pub slice-Filled_before :
      (b : Block A) (g : ℕ → A) (off start n : ℕ) (b' : Block A) (i m : ℕ)
      → Filled b g off start n b'
      → i + m ≤ off + start
      → slice b'.cell i m ≡ slice b.cell i m
  slice-Filled_before b g off start n b' i m f le =
      slice_ext b'.cell b.cell i i m (λ k lt. f.outside (i + k) (inl (omega arith)))
