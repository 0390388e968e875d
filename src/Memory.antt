-- ===== src/Memory.antt =====
-- Blocks of the C heap: `FTH_CALLOC`, `FTH_REALLOC`, and the accesses through a pointer into a
-- block. An access outside the block is `none`.
pub mod Slice
pub mod Writes
pub mod Moves
use fth.Base.{ℕ, zero, suc, ◌+◌, ◌-◌, Bool, ◌&&◌, ◌==◌, ltb, leb, if◌then◌else◌, Option, none, some}

-- `cell i` has a meaning for i < size only.
pub record Block {ℓ} (A : Type ℓ) : Type ℓ where
  pub size : ℕ
  pub cell : ℕ → A

abbrev pub update {ℓ} : {A : Type ℓ} → (ℕ → A) → ℕ → A → ℕ → A
update f i v j = if j == i then v else f j

-- what `memmove` leaves at each cell: [dst, dst + n) holds what the source had from `src` on
abbrev pub moved {ℓ} : {A : Type ℓ} → (ℕ → A) → (ℕ → A) → ℕ → ℕ → ℕ → ℕ → A
moved f g dst src n j = if leb dst j && ltb j (dst + n) then g (src + (j - dst)) else f j

module _ {ℓ} {A : Type ℓ} where
  -- `calloc`: every cell holds the value of the zero bits
  unfoldable pub calloc : A → ℕ → Block A
  calloc z n = record { size = n; cell = λ _. z }

  -- `realloc`: the cells that both blocks have keep their values, and `fresh` is whatever the
  -- memory holds in the cells that are new
  unfoldable pub realloc : (ℕ → A) → Block A → ℕ → Block A
  realloc fresh b n = record { size = n; cell = λ i. if ltb i b.size then b.cell i else fresh i }

  unfoldable pub load : Block A → ℕ → Option A
  load b i = if ltb i b.size then some (b.cell i) else none

  unfoldable pub store : Block A → ℕ → A → Option (Block A)
  store b i v = if ltb i b.size then some (record b { cell = update b.cell i v }) else none

  -- `memmove (to + dst, from + src, n * sizeof (cell))`; `to` and `from` may be one block
  unfoldable pub memmove : Block A → ℕ → Block A → ℕ → ℕ → Option (Block A)
  memmove to dst from src n =
      if leb (dst + n) to.size && leb (src + n) from.size
      then some (record to { cell = moved to.cell from.cell dst src n })
      else none

  -- `for (i = start; i < start + n; i++) data[i] = value i`, where `data` points at `off`
  unfoldable pub store_each : (ℕ → Option A) → ℕ → ℕ → ℕ → Block A → Option (Block A)
  store_each value off i zero b = some b
  store_each value off i (suc n) b = elim (value i) [
    | none ↦ none
    | some v ↦ elim (store b (off + i) v) [
      | none ↦ none
      | some b' ↦ store_each value off (suc i) n b'
    ]
  ]
