-- ===== src/Tests/Ends.antt =====
-- Pushes, pops, unshifts and shifts of the arrays of the parent.
use fth.Base.{◌+◌, ◌/◌, ◌⊎◌, [], ◌∷◌, ◌++◌}
use fth.Array.{view}
use fth.Array.Valid.{Yields, Refuses}
use fth.Array.Ends.{array_push, array_pop, array_unshift, array_shift}
use fth.Array.Ends.Push.{array_push-Yields}
use fth.Array.Ends.Pop.{array_pop-Yields}
use fth.Array.Ends.Unshift.{array_unshift-Yields}
use fth.Array.Ends.Shift.{array_shift-Yields}
use fth.Tests.{three, leftmost, three-IsValid, leftmost-IsValid, view-three}

array_push-Yields_example :
    Yields (array_push (λ _. 0) 7 three) tt (view three ++ 7 ∷ [])
    ⊎ Refuses (array_push (λ _. 0) 7 three) three (42 + (3 + 1))
array_push-Yields_example = array_push-Yields (λ _. 0) 7 three three-IsValid

array_unshift-Yields_example :
    Yields (array_unshift (λ _. 0) 7 leftmost) tt (7 ∷ view leftmost)
    ⊎ Refuses (array_unshift (λ _. 0) 7 leftmost) leftmost (256 / 3 + (2 + 1))
array_unshift-Yields_example = array_unshift-Yields (λ _. 0) 7 leftmost leftmost-IsValid

array_pop-Yields_example : Yields (array_pop 0 (λ _. 0) three) 44 (42 ∷ 43 ∷ [])
array_pop-Yields_example =
    array_pop-Yields 0 (λ _. 0) three (42 ∷ 43 ∷ []) 44 three-IsValid view-three

array_shift-Yields_example : Yields (array_shift 0 (λ _. 0) three) 42 (43 ∷ 44 ∷ [])
array_shift-Yields_example =
    array_shift-Yields 0 (λ _. 0) three 42 (43 ∷ 44 ∷ []) three-IsValid view-three
