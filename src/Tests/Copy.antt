-- ===== src/Tests/Copy.antt =====
-- Copies, concatenations and parts.
use fth.Base.{arith, [], ◌∷◌, ℕ, ◌-◌, ◌≡◌, refl, ok, fault, pos, negsuc}
use fth.Memory.{calloc, memmove}
use fth.Array.Access.{in_range, from_end, make_array_len}
use fth.Array.{make_array, make_array_instance, FArray, view}
use fth.Array.Valid.{IsValid}
use fth.Array.Copy.{array_subarray, copy_part, clip_end, end_of}
use fth.Array.Copy.Subarray.{EndsAt, Copied, array_subarray-cases}
use fth.Tests.{counted, three}

-- 150 elements that end close to the end of the buffer
abbrev late : FArray ℕ
late = counted 100 150

late-IsValid : IsValid late
late-IsValid = record { sized = refl; aimed = refl; fits = omega arith }

array_subarray-cases_example :
    (e : ℕ) × EndsAt (negsuc 1) 10 150 e
    × Copied 0 (array_subarray 0 (pos 10) (negsuc 1) late) late 10 (e - 10)
array_subarray-cases_example = array_subarray-cases 0 (pos 10) (negsuc 1) late 10 late-IsValid refl

-- The move from the tenth element on passes the end of the buffer.
run_overrun : array_subarray 0 (pos 10) (pos 12) late ≡ fault
unfolding array_subarray copy_part clip_end end_of in_range from_end make_array_len make_array
    make_array_instance calloc memmove
run_overrun = refl

run_subarray :
    (r : FArray ℕ) × (array_subarray 0 (pos 1) (negsuc 0) three ≡ ok r) × (view r ≡ 43 ∷ 44 ∷ [])
unfolding array_subarray copy_part clip_end end_of in_range from_end make_array_len make_array
    make_array_instance calloc memmove
run_subarray = (_, refl, refl)
