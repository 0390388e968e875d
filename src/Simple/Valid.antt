-- ===== src/Simple/Valid.antt =====
-- The invariant of the simple arrays: the buffer has room up to a multiple of `incr` at which the next
-- growth comes.
use fth.Base.{
  ℕ, ◌%◌, ◌≤◌, ◌<◌, ◌≡◌, refl, List, [], Option, none, some, ok, arith, ℤ, pos, negsuc, length,
}
use fth.Memory.{Block}
use fth.Memory.Slice.{length-slice}
use fth.Memory.Writes.{load-in}
use fth.Simple.{SimpleArray, Method, view, items, make_simple_array, simple_array_clear, cell_at}

module _ {ℓ} {A : Type ℓ} where
  -- the cells up to `r` are there
  abbrev pub HasRoom : Option (Block A) → ℕ → Type 0
  HasRoom none r = r ≡ 0
  HasRoom (some b) r = r ≤ b.size

  pub record IsValid (a : SimpleArray A) : Type 0 where
    pub grows : 0 < a.incr
    pub room : ℕ
    pub multiple : room % a.incr ≡ 0
    pub holds : a.length ≤ room
    pub inside : HasRoom a.cells room

  -- The call returns `b` and leaves a valid array that holds `xs`.
  pub record Yields {κ} {B : Type κ} (r : Method A B) (b : B) (xs : List A) : Type (ℓ ⊔ κ) where
    pub returns : r.0 ≡ ok b
    pub valid : IsValid r.1
    pub shows : view r.1 ≡ xs

  pub empty-IsValid : (a : SimpleArray A) → 0 < a.incr → IsValid (simple_array_clear a)
  unfolding simple_array_clear
  empty-IsValid a h = record {
    grows = h;
    room = 0;
    multiple = omega arith;
    holds = omega arith;
    inside = refl;
  }

  pub view-simple_array_clear : (a : SimpleArray A) → view (simple_array_clear a) ≡ []
  unfolding simple_array_clear
  view-simple_array_clear a = refl

  pub make_simple_array-IsValid : (n : ℤ) → IsValid (make_simple_array n)
  unfolding make_simple_array
  make_simple_array-IsValid (negsuc n) = record {
    grows = omega arith;
    room = 0;
    multiple = omega arith;
    holds = omega arith;
    inside = refl;
  }
  make_simple_array-IsValid (pos n) = record {
    grows = ground arith;
    room = 0;
    multiple = omega arith;
    holds = omega arith;
    inside = refl;
  }

  -- An array that is not empty has a block, with its cells inside.
  pub block_there :
      (a : SimpleArray A)
      → IsValid a
      → 0 < a.length
      → (b : Block A) × (a.cells ≡ some b) × (a.length ≤ b.size)
  block_there a v h = go a.cells refl v.inside
    where
      go :
          (c : Option (Block A))
          → a.cells ≡ c
          → HasRoom c v.room
          → (b : Block A) × (a.cells ≡ some b) × (a.length ≤ b.size)
      go none e r = absurd (omega (arith, v.holds, h, r))
      go (some b) e r = (b, e, omega (arith, v.holds, r))

  pub cell_at-some :
      (a : SimpleArray A) (b : Block A) (i : ℕ)
      → a.cells ≡ some b
      → i < b.size
      → cell_at a i ≡ some (b.cell i)
  unfolding cell_at
  cell_at-some a b i e lt = let here = load-in b i lt in rw (e, here, cell_at) refl

  pub length-view : (a : SimpleArray A) → IsValid a → length (view a) ≡ a.length
  length-view a v = go a.cells v.inside
    where
      go : (c : Option (Block A)) → HasRoom c v.room → length (items c a.length) ≡ a.length
      go none z = omega (arith, v.holds, z)
      go (some b) le = length-slice b.cell 0 a.length
