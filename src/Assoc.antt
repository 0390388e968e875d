-- ===== src/Assoc.antt =====
-- Assoc arrays of src/array.c: arrays of acells that are kept sorted by the hash id of their keys.
pub mod Search
pub mod Insert
pub mod Ids
pub mod Refine
pub mod Remove
pub mod Words
use fth.Base.{
  ℕ, zero, suc, ◌+◌, ◌-◌, ◌/◌, ◌==◌, Bool, true, false, ltb, if◌then◌else◌, ℤ, pos, negsuc, List,
  [], ◌∷◌, Option, none, some, Outcome, ok, throw, fault, out_of_range,
}
use fth.Memory.{load, store, memmove}
use fth.Array.{FArray, Method, resize, new_seq_length, max_seq_length}
use fth.Array.Access.{make_array_var, array_set, ary_ref}
use fth.Array.Edit.{array_delete}

-- An element of an array: an array of two elements, which is what `FTH_ACELL_P` asks for, or any
-- other object.
pub data Element {ℓ} (A : Type ℓ) : Type ℓ where
  acell : A → A → Element A
  other : A → Element A

module _ {ℓ} {A : Type ℓ} where
  -- `memmove`, `length++`, `data[i] = val`
  unfoldable pub put_at : ℕ → Element A → FArray (Element A) → Method (Element A) (Unit {0})
  put_at i val a =
      elim (memmove a.buf (a.data_offset + i + 1) a.buf (a.data_offset + i) (a.length - i)) [
        | none ↦ (fault, a)
        | some b ↦ elim (store b (a.data_offset + i) val) [
          | none ↦ (fault, a)
          | some c ↦ (ok tt, record a { buf = c; length = a.length + 1; changed_p = true })
        ]
      ]

-- `hash_id` is `fth_hash_id`
module _ {ℓ} {A : Type ℓ} (hash_id : A → ℕ) (false_object : A) where
  abbrev pub acell_key : Element A → A
  acell_key (acell key value) = key
  acell_key (other x) = false_object

  abbrev pub acell_value : Element A → A
  acell_value (acell key value) = value
  acell_value (other x) = false_object

  -- `fth_hash_id (fth_acell_key (e))`
  abbrev pub id_of : Element A → ℕ
  id_of e = hash_id (acell_key e)

  -- The loop of the binary search, on `fuel` rounds. `stop` is `end + 1`, so that `beg <= end` is
  -- `beg < stop` and the empty range needs no negative `end`.
  unfoldable pub search : ℕ → ℕ → ℕ → ℕ → FArray (Element A) → Outcome ℤ
  search zero beg stop id a = fault
  search (suc fuel) beg stop id a = elim (ltb beg stop) [
    | false ↦ ok (negsuc 0)
    | true ↦
        let i = (beg + (stop - 1)) / 2 in
        elim (load a.buf (a.data_offset + i)) [
          | none ↦ fault
          | some e ↦ elim (id == id_of e) [
            | true ↦ ok (pos i)
            | false ↦ elim (ltb id (id_of e)) [
              | true ↦ search fuel beg i id a
              | false ↦ search fuel (i + 1) stop id a
            ]
          ]
        ]
  ]

  -- `none` is nil or `#f`
  unfoldable pub assoc_index : A → Option (FArray (Element A)) → Outcome ℤ
  assoc_index key none = ok (negsuc 0)
  assoc_index key (some a) =
      if a.length == 0 then ok (negsuc 0) else search (a.length + 1) 0 a.length (hash_id key) a

  -- `for (i = 0; i < alen; i++) if (id < …) break;` with `n` rounds left
  unfoldable pub place : ℕ → ℕ → ℕ → FArray (Element A) → Option ℕ
  place zero i id a = some i
  place (suc n) i id a = elim (load a.buf (a.data_offset + i)) [
    | none ↦ none
    | some e ↦ elim (ltb id (id_of e)) [ true ↦ some i | false ↦ place n (i + 1) id a ]
  ]

  -- The limit is tested whether or not the buffer has to grow.
  unfoldable pub assoc_insert :
      (ℕ → Element A) → ℕ → Element A → FArray (Element A) → Method (Element A) (Unit {0})
  assoc_insert fresh id val a =
      let marked = record a { is_assoc = true } in
      elim (place a.length 0 id a) [
        | none ↦ (fault, marked)
        | some i ↦
            let len = new_seq_length (a.top + a.length + 1) in
            if ltb max_seq_length len
            then (throw out_of_range, marked)
            else put_at i val (if ltb a.buf_length len then resize fresh len marked else marked)
      ]

  -- The array that the caller gets back, a new one for nil and `#f`.
  unfoldable pub assoc :
      Element A
      → (ℕ → Element A)
      → A
      → A
      → Option (FArray (Element A))
      → Outcome (Unit {0}) × Option (FArray (Element A))
  assoc zero_bits fresh key value none = elim (make_array_var zero_bits (acell key value ∷ [])) [
    | ok a ↦ (ok tt, some (record a { is_assoc = true }))
    | throw e ↦ (throw e, none)
    | fault ↦ (fault, none)
  ]
  assoc zero_bits fresh key value (some a) =
      let r = assoc_insert fresh (hash_id key) (acell key value) a in (r.0, some r.1)

  -- The four operations below take the array that they are handed. For nil and `#f` assoc_index is -1,
  -- so that `ref` and `assoc` give `#f`, `remove` gives back its argument and `set` is the first clause
  -- of `assoc` above.

  -- the value that goes with the key, or `#f`
  unfoldable pub array_assoc_ref : A → FArray (Element A) → Outcome A
  array_assoc_ref key a = elim (assoc_index key (some a)) [
    | throw e ↦ throw e
    | fault ↦ fault
    | ok idx ↦ elim idx [
      | negsuc k ↦ ok false_object
      | pos i ↦ elim (ary_ref (pos i) a) [
        | ok e ↦ ok (acell_value e)
        | throw e ↦ throw e
        | fault ↦ fault
      ]
    ]
  ]

  -- the element itself, or `#f`
  unfoldable pub array_assoc : A → FArray (Element A) → Outcome (Option (Element A))
  array_assoc key a = elim (assoc_index key (some a)) [
    | throw e ↦ throw e
    | fault ↦ fault
    | ok idx ↦ elim idx [
      | negsuc k ↦ ok none
      | pos i ↦ elim (ary_ref (pos i) a) [ ok e ↦ ok (some e) | throw e ↦ throw e | fault ↦ fault ]
    ]
  ]

  unfoldable pub array_assoc_set :
      (ℕ → Element A) → A → A → FArray (Element A) → Method (Element A) (Unit {0})
  array_assoc_set fresh key value a = elim (assoc_index key (some a)) [
    | throw e ↦ (throw e, a)
    | fault ↦ (fault, a)
    | ok idx ↦ elim idx [
      | negsuc k ↦ assoc_insert fresh (hash_id key) (acell key value) a
      | pos i ↦
          let r = array_set (pos i) (acell key value) a in
          elim r.0 [ ok _ ↦ (ok tt, r.1) | throw e ↦ (throw e, r.1) | fault ↦ (fault, r.1) ]
    ]
  ]

  unfoldable pub array_assoc_remove :
      (ℕ → Element A) → A → FArray (Element A) → Method (Element A) (Unit {0})
  array_assoc_remove fresh key a = elim (assoc_index key (some a)) [
    | throw e ↦ (throw e, a)
    | fault ↦ (fault, a)
    | ok idx ↦ elim idx [
      | negsuc k ↦ (ok tt, a)
      | pos i ↦
          let r = array_delete (other false_object) fresh (pos i) a in
          elim r.0 [ ok _ ↦ (ok tt, r.1) | throw e ↦ (throw e, r.1) | fault ↦ (fault, r.1) ]
    ]
  ]
