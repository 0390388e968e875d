-- ===== src/Tests/Assoc.antt =====
-- An assoc array of the keys 2, 5 and 9, whose ids are their remainders modulo 16.
use fth.Base.{
  ℕ, ◌+◌, ◌%◌, ◌<◌, ◌≡◌, refl, ◌⊎◌, List, throw, out_of_range, some, none, true, false, arith,
  if◌then◌else◌, ◌==◌,
}
use fth.Array.{FArray, view, new_seq_length, max_seq_length}
use fth.Array.Valid.{IsValid, Yields}
use fth.Assoc.{Element, acell, assoc_index, array_assoc_set, array_assoc_remove}
use fth.Assoc.Search.{Sorted, Found, assoc_index-Found}
use fth.Assoc.Ids.{find_id}
use fth.Assoc.Remove.{array_assoc_remove-Removes}
use fth.Assoc.Refine.{Sets, array_assoc_set-Sets}

abbrev hash : ℕ → ℕ
hash n = n % 16

abbrev pairs : FArray (Element ℕ)
pairs = record {
  is_array = true;
  is_list = false;
  is_assoc = true;
  length = 3;
  buf_length = 128;
  top = 42;
  data_offset = 42;
  buf = record {
    size = 128;
    cell = λ i. if i == 42 then acell 2 20 else if i == 43 then acell 5 50 else acell 9 90;
  };
  changed_p = false;
}

pairs-IsValid : IsValid pairs
pairs-IsValid = record { sized = refl; aimed = refl; fits = omega arith }

pairs-Sorted : Sorted hash 0 (view pairs)
pairs-Sorted = ((omega arith, (omega arith, tt)), ((omega arith, tt), (tt, tt)))

assoc_index-Found_example : Found hash 0 pairs 9 (assoc_index hash 0 9 (some pairs))
assoc_index-Found_example = assoc_index-Found hash 0 9 pairs pairs-IsValid pairs-Sorted

array_assoc_set-Sets_example :
    ((xs : List (Element ℕ)) × Yields (array_assoc_set hash 0 (λ _. acell 0 0) 21 7 pairs) tt xs
      × Sets hash 0 21 7 (view pairs) xs)
    ⊎ ((array_assoc_set hash 0 (λ _. acell 0 0) 21 7 pairs ≡ (throw out_of_range, pairs))
        × (max_seq_length < new_seq_length (42 + 3 + 1)))
array_assoc_set-Sets_example =
    array_assoc_set-Sets hash 0 (λ _. acell 0 0) 21 7 pairs pairs-IsValid pairs-Sorted

array_assoc_remove-Removes_example :
    (xs : List (Element ℕ)) × Yields (array_assoc_remove hash 0 (λ _. acell 0 0) 5 pairs) tt xs
    × Sorted hash 0 xs
    × ((n : ℕ) → find_id hash 0 n xs ≡ (if n == 5 then none else find_id hash 0 n (view pairs)))
array_assoc_remove-Removes_example =
    array_assoc_remove-Removes hash 0 (λ _. acell 0 0) 5 pairs pairs-IsValid pairs-Sorted
