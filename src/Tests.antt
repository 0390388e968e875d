-- ===== src/Tests.antt =====
-- Arrays to run the model of src/array.c on, and runs of it.
mod Ends
mod Access
mod Edit
mod Copy
mod Hash
mod Assoc
mod Cons
mod Strings
mod Simple
mod Hooks
mod Collector
use fth.Base.{ℕ, ◌==◌, ◌≡◌, refl, Bool, true, false, List, [], ◌∷◌, ◌+◌, arith, ok}
use fth.Memory.{Block}
use fth.Array.{FArray, view}
use fth.Array.Valid.{IsValid}

-- an array of `len` elements from `top` on, whose cells hold their own indices
abbrev pub counted : ℕ → ℕ → FArray ℕ
counted top len = record {
  is_array = true;
  is_list = false;
  is_assoc = false;
  length = len;
  buf_length = 256;
  top = top;
  data_offset = top;
  buf = record { size = 256; cell = λ i. i };
  changed_p = false;
}

abbrev pub three : FArray ℕ
three = counted 42 3

abbrev pub nothing : FArray ℕ
nothing = counted 42 0

-- no cell is left in front of its elements
abbrev pub leftmost : FArray ℕ
leftmost = counted 1 2

pub three-IsValid : IsValid three
three-IsValid = record { sized = refl; aimed = refl; fits = omega arith }

pub leftmost-IsValid : IsValid leftmost
leftmost-IsValid = record { sized = refl; aimed = refl; fits = omega arith }

pub view-three : view three ≡ 42 ∷ 43 ∷ 44 ∷ []
view-three = refl

pub view-leftmost : view leftmost ≡ 1 ∷ 2 ∷ []
view-leftmost = refl

-- a copy that can be told from what it copies
abbrev pub marked : ℕ → ℕ
marked x = x + 1000

abbrev pub equal : ℕ → ℕ → Bool
equal x y = x == y
