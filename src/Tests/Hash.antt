-- ===== src/Tests/Hash.antt =====
-- Hashes with numbers for keys, of which 0 is the null cell.
use fth.Base.{
  ℕ, ◌+◌, ◌≡◌, refl, ◌⊎◌, true, ltb, ◌==◌, List, none, some, Outcome, ok, pos, arith, length, false,
  ◌≢◌,
}
use fth.Memory.{calloc, load, store}
use fth.Hash.{
  Keys, FItem, FHash, make_hash, make_item, sound_size, find_entry, overwrite, unlink, hash_ref,
  hash_set, hash_delete,
}
use fth.Hash.Loops.{hash_each}
use fth.Hash.Chain.{Lawful, value_of}
use fth.Hash.Valid.{IsValid, lookup}
use fth.Hash.Update.{Puts, hash_set-Puts}
use fth.Hash.Delete.{Deletes, hash_delete-cases}
use fth.Hash.Fresh.{make_hash-Empty}
use fth.Hash.Entries.{fold, Apart}
use fth.Hash.Each.{hash_each-Lists}
use fth.Hash.Equal.{hash_equal_p}
use fth.Hash.Equal.Agree.{alike, hash_equal_p-cases}

abbrev numbers : Keys ℕ
numbers = record { equal = λ a b. a == b; hash_id = λ a. a; is_key = λ a. ltb 0 a }

numbers-Lawful : Lawful numbers
numbers-Lawful = record {
  refl_of = λ a. ground arith;
  sym_of = λ a b h. ground arith;
  trans_of = λ a b c h k. ground arith;
  hash-equal = λ a b h. ground arith;
}

-- two items in one bucket
abbrev none_yet : FHash ℕ
none_yet = make_hash (pos 3)

abbrev one_item : FHash ℕ
one_item = (hash_set numbers 4 40 none_yet).1

abbrev two_items : FHash ℕ
two_items = (hash_set numbers 1 10 one_item).1

one_item-IsValid : IsValid numbers one_item
one_item-IsValid =
    let p =
      hash_set-Puts numbers 4 40 none_yet numbers-Lawful (make_hash-Empty numbers (pos 3)).valid
        refl in
    p.1.valid

two_items-IsValid : IsValid numbers two_items
two_items-IsValid =
    let p = hash_set-Puts numbers 1 10 one_item numbers-Lawful one_item-IsValid refl in p.1.valid

run_of_two : hash_ref numbers 0 4 two_items ≡ ok 40
unfolding hash_ref hash_set make_hash make_item sound_size find_entry overwrite calloc load store
run_of_two = refl

deleted_of_two : (hash_delete numbers 4 two_items).0 ≡ ok (some (4, 40))
unfolding hash_delete unlink hash_set make_hash make_item sound_size find_entry overwrite calloc
    load store
deleted_of_two = refl

hash_set-Puts_example :
    ((hash_set numbers 4 44 two_items).0 ≡ ok tt)
    × Puts numbers 4 44 two_items (hash_set numbers 4 44 two_items).1
hash_set-Puts_example = hash_set-Puts numbers 4 44 two_items numbers-Lawful two_items-IsValid refl

hash_delete-cases_example :
    ((found : ℕ) × (value : ℕ) × ((hash_delete numbers 4 two_items).0 ≡ ok (some (found, value)))
      × (numbers.equal 4 found ≡ true)
      × (lookup numbers two_items 4 ≡ some value)
      × Deletes numbers 4 two_items (hash_delete numbers 4 two_items).1)
    ⊎ ((hash_delete numbers 4 two_items ≡ (ok none, two_items))
        × (lookup numbers two_items 4 ≡ none))
hash_delete-cases_example = hash_delete-cases numbers 4 two_items numbers-Lawful two_items-IsValid

-- the sum of the values
abbrev add : ℕ → ℕ → ℕ → Outcome ℕ
add key value sum = ok (sum + value)

hash_each-Lists_example :
    (items : List (FItem ℕ)) × (hash_each numbers add two_items 0 ≡ fold add items 0)
    × (length items ≡ two_items.length)
    × Apart numbers items
    × ((k : ℕ) → value_of numbers k items ≡ lookup numbers two_items k)
hash_each-Lists_example = hash_each-Lists numbers add two_items 0 numbers-Lawful two_items-IsValid

hash_equal_p-cases_example :
    ((hash_equal_p numbers one_item two_items ≡ ok true)
      × (one_item.hash_size ≡ two_items.hash_size)
      × (one_item.length ≡ two_items.length)
      × ((k : ℕ) → alike numbers (lookup numbers one_item k) (lookup numbers two_items k) ≡ true))
    ⊎ ((hash_equal_p numbers one_item two_items ≡ ok false)
        × ((one_item.hash_size ≢ two_items.hash_size)
            ⊎ (one_item.length ≢ two_items.length)
            ⊎ ((k : ℕ) × (alike numbers (lookup numbers one_item k) (lookup numbers two_items k)
                  ≡ false))))
hash_equal_p-cases_example =
    hash_equal_p-cases numbers one_item two_items numbers-Lawful one_item-IsValid two_items-IsValid
