-- ===== src/Tests/Access.antt =====
-- Elements read at both ends of an array.
use fth.Base.{◌≡◌, refl, ok, throw, out_of_range, pos, negsuc}
use fth.Memory.{load}
use fth.Array.Access.{array_ref, ary_ref, in_range, from_end}
use fth.Tests.{three}

array_ref_last : array_ref (negsuc 0) three ≡ ok 44
unfolding array_ref ary_ref in_range from_end load
array_ref_last = refl

array_ref_out : array_ref (pos 3) three ≡ throw out_of_range
unfolding array_ref ary_ref in_range from_end
array_ref_out = refl
