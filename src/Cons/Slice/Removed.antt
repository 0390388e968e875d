-- ===== src/Cons/Slice/Removed.antt =====
-- What list-slice and list-slice! leave.
use fth.Base.{
  ℕ, ◌+◌, ◌-◌, ◌≡◌, ◌⊎◌, false, List, ◌++◌, take, drop, Option, some, Outcome, ok, throw,
  out_of_range,
}
use fth.Array.{FArray, view}
use fth.Cons.{Tail, cons_of}
use fth.Array.Valid.{IsValid}
use fth.Cons.Slice.Pushed.{IsTooLong}

-- the cells in front of the elements of a list that is made empty
abbrev pub first_top : ℕ
first_top = 42

module _ {ℓ} {A : Type ℓ} where
  -- without the elements from `i` on and before `end`
  abbrev pub without : ℕ → ℕ → List A → List A
  without i end xs = take i xs ++ drop (i + (end - i)) xs

  -- The list that list-slice! leaves.
  abbrev pub Cuts : Outcome (Unit {0}) × Tail A → List A → Type ℓ
  Cuts r xs = (b : FArray A) × (r ≡ (ok tt, cons_of b)) × IsValid b × (view b ≡ xs)

  -- The list that list-slice makes; or else OUT-OF-RANGE is raised because its buffer would be too long.
  abbrev pub MakesList : Outcome (Option (FArray A)) → List A → Type ℓ
  MakesList r xs =
      ((b : FArray A) × (r ≡ ok (some b)) × IsValid b × (view b ≡ xs))
      ⊎ ((r ≡ throw out_of_range) × IsTooLong first_top xs)

  empty : A → FArray A
  empty z = record {
    is_array = false;
    is_list = false;
    is_assoc = false;
    length = 0;
    buf_length = 128;
    top = first_top;
    data_offset = first_top;
    buf = record { size = 128; cell = λ _. z };
    changed_p = false;
  }
