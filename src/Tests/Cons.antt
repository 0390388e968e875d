-- ===== src/Tests/Cons.antt =====
-- Lists made by cons, and their rests.
use fth.Base.{
  ℕ, ◌-◌, ◌<◌, ◌≤◌, ◌≡◌, refl, ◌⊎◌, none, some, ok, throw, fault, out_of_range, pos, negsuc, drop,
}
use fth.Memory.{load, store}
use fth.Array.{FArray, view, max_seq_length}
use fth.Array.Valid.{IsValid}
use fth.Array.Access.Make.{first_buf_length}
use fth.Array.Access.{in_range, from_end}
use fth.Array.Copy.Subarray.{Overruns, Stays, Allots}
use fth.Cons.{cons_of, cdr_at}
use fth.Cons.Rest.{cdr_at-cases}
use fth.Cons.Slice.{move_outside, list_slice_bang}
use fth.Tests.{three, three-IsValid}

cdr_at-cases_example :
    ((3 ≤ 1) × (cdr_at 0 1 (cons_of three) ≡ ok none))
    ⊎ ((1 < 3)
        × Allots (3 - 1)
        × Stays three 1 (3 - 1)
        × (r : FArray ℕ) × (cdr_at 0 1 (cons_of three) ≡ ok (some r))
        × IsValid r
        × (view r ≡ drop 1 (view three)))
    ⊎ ((1 < 3) × Allots (3 - 1) × Overruns three 1 (3 - 1) × (cdr_at 0 1 (cons_of three) ≡ fault))
    ⊎ ((1 < 3)
        × (cdr_at 0 1 (cons_of three) ≡ throw out_of_range)
        × (max_seq_length < first_buf_length (3 - 1)))
cdr_at-cases_example = cdr_at-cases 0 1 three three-IsValid

-- list-slice! of the element in the middle
run_slice : (list_slice_bang (negsuc 1) (pos 1) (cons_of three)).0 ≡ ok tt
unfolding list_slice_bang move_outside in_range from_end load store
run_slice = refl
