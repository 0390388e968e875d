-- ===== src/Tests/Edit.antt =====
-- Insertions and deletions.
use fth.Base.{◌+◌, ◌≢◌, refl, ◌⊎◌, [], ◌∷◌, ◌++◌, pos, negsuc, arith}
use fth.Memory.{load, store}
use fth.Array.{view, reserve}
use fth.Array.Ends.{array_unshift}
use fth.Array.Valid.{Yields, Refuses}
use fth.Array.Edit.{elements, itself, array_insert, insert_front, unshift_each, array_delete}
use fth.Array.Edit.Insert.{array_insert-Yields}
use fth.Array.Edit.Delete.{array_delete-Yields}
use fth.Array.Edit.Itself.{insert_itself-ne}
use fth.Tests.{three, leftmost, three-IsValid, leftmost-IsValid, view-three}

array_insert-Yields_example :
    Yields
      (array_insert 0 (λ _. 0) (pos 1) (elements leftmost) three)
      tt
      (42 ∷ [] ++ (view leftmost ++ 43 ∷ 44 ∷ []))
    ⊎ Refuses (array_insert 0 (λ _. 0) (pos 1) (elements leftmost) three) three (42 + (3 + 2))
array_insert-Yields_example =
    array_insert-Yields 0 (λ _. 0) (pos 1) (elements leftmost) three 42 [] (43 ∷ 44 ∷ [])
      three-IsValid leftmost-IsValid view-three refl

insert_itself-ne_example : view (insert_front (λ _. 0) itself three).1 ≢ view three ++ view three
unfolding insert_front unshift_each load array_unshift reserve store
insert_itself-ne_example =
    insert_itself-ne (λ _. 0) three 42 43 (44 ∷ []) three-IsValid view-three (omega arith) refl

array_delete-Yields_example : Yields (array_delete 0 (λ _. 0) (negsuc 1) three) 43 (42 ∷ 44 ∷ [])
array_delete-Yields_example =
    array_delete-Yields 0 (λ _. 0) (negsuc 1) three (42 ∷ []) (44 ∷ []) 43 three-IsValid view-three
      refl
