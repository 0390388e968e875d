-- ===== src/Tests/Simple.antt =====
-- Simple arrays to run the model of src/utils.c on.
use fth.Base.{ℕ, ◌≡◌, refl, Bool, ◌==◌, pos, some, ok}
use fth.Memory.{realloc, load, store, memmove}
use fth.Simple.{
  SimpleArray, view, make_simple_array, simple_array_push, simple_array_delete, roomy, no_data,
  cell_at, index_from, simple_array_index, delete_found, remove_at, close_gap, simple_array_clear,
}
use fth.Simple.Valid.{IsValid, make_simple_array-IsValid}
use fth.Simple.Push.{simple_array_push-Yields}
use fth.Simple.Search.{first_place}
use fth.Simple.Delete.{Removes, simple_array_delete-Removes}

abbrev same_number : ℕ → ℕ → Bool
same_number x y = x == y

-- 5, 6, 5 in a block that grows by two cells
abbrev one_number : SimpleArray ℕ
one_number = (simple_array_push (λ _. 9) 5 (make_simple_array (pos 2))).1

abbrev two_numbers : SimpleArray ℕ
two_numbers = (simple_array_push (λ _. 9) 6 one_number).1

abbrev three_numbers : SimpleArray ℕ
three_numbers = (simple_array_push (λ _. 9) 5 two_numbers).1

three_numbers-IsValid : IsValid three_numbers
three_numbers-IsValid =
    let first =
      simple_array_push-Yields (λ _. 9) 5 (make_simple_array (pos 2))
        (make_simple_array-IsValid (pos 2)) in
    let second = simple_array_push-Yields (λ _. 9) 6 one_number first.valid in
    (simple_array_push-Yields (λ _. 9) 5 two_numbers second.valid).valid

run_delete : (simple_array_delete same_number 6 three_numbers).0 ≡ ok (some 6)
unfolding simple_array_delete delete_found simple_array_index index_from cell_at load
    simple_array_push make_simple_array roomy no_data realloc store remove_at close_gap memmove
    simple_array_clear
run_delete = refl

simple_array_delete-Removes_example :
    Removes
      (simple_array_delete same_number 6 three_numbers)
      three_numbers
      6
      (first_place same_number 6 (view three_numbers))
simple_array_delete-Removes_example =
    simple_array_delete-Removes same_number 6 three_numbers three_numbers-IsValid
