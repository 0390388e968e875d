-- ===== src/Strings/Edit.antt =====
-- fth_string_insert, fth_string_delete and fth_string_fill of src/string.c.
pub mod Insert
pub mod Delete
pub mod Fill
use fth.Base.{
  ℕ, zero, ◌+◌, ◌-◌, true, ◌==◌, if◌then◌else◌, ℤ, pos, negsuc, Option, none, some, Outcome, ok,
  throw, fault, out_of_range,
}
use fth.Memory.{Block, load, store, memmove, store_each}
use fth.Array.{new_seq_length}
use fth.Array.Access.{in_range, from_end}
use fth.Strings.{FString, Method, string_reserve, string_shrink}
use fth.Strings.Ends.{
  Added, added_length, added_buf, added_data, string_unshift, string_shift, string_pop,
}

-- behind the growth: the tail moves up by `il`, the inserted bytes go into the gap, and the NUL byte
-- goes behind. The string that is inserted into itself is read as it is by then.
unfoldable pub string_move_in : Added → ℕ → ℕ → FString → Method (Unit {0})
string_move_in ins i il s =
    elim (memmove s.buf (s.data_offset + i + il) s.buf (s.data_offset + i) (s.length - i)) [
      | none ↦ (fault, s)
      | some b ↦
          let opened = record s { buf = b } in
          elim (memmove b (s.data_offset + i) (added_buf ins opened) (added_data ins opened) il) [
            | none ↦ (fault, opened)
            | some c ↦ elim (store c (s.data_offset + (s.length + il)) 0) [
              | none ↦ (fault, opened)
              | some d ↦ (ok tt, record s { buf = d; length = s.length + il; changed_p = true })
            ]
          ]
    ]

unfoldable pub string_insert_inside : (ℕ → ℕ) → ℕ → Added → FString → Method (Unit {0})
unfolding string_move_in
string_insert_inside fresh i ins s =
    let il = added_length ins s in
    if il == 0 then (ok tt, s) else elim (string_reserve fresh (s.top + (s.length + il + 1)) s) [
      | ok grown ↦ string_move_in ins i il grown
      | throw e ↦ (throw e, s)
      | fault ↦ (fault, s)
    ]

-- behind the count from the end: index 0 is `unshift`'s, also where it is out of range
unfoldable pub string_insert_from : (ℕ → ℕ) → ℤ → Added → FString → Method (Unit {0})
unfolding string_insert_inside
string_insert_from fresh (pos zero) ins s = string_unshift fresh ins s
string_insert_from fresh idx ins s = elim (in_range idx s.length) [
  | none ↦ (throw out_of_range, s)
  | some i ↦ string_insert_inside fresh i ins s
]

unfoldable pub string_insert : (ℕ → ℕ) → ℤ → Added → FString → Method (Unit {0})
unfolding string_insert_from
string_insert fresh idx ins s = string_insert_from fresh (from_end idx s.length) ins s

-- a character with neighbours on both sides
unfoldable pub string_delete_inside : (ℕ → ℕ) → ℕ → FString → Method (Option ℕ)
string_delete_inside fresh i s = elim (load s.buf (s.data_offset + i)) [
  | none ↦ (fault, s)
  | some c ↦
      let shorter = s.length - 1 in
      let t =
        string_shrink fresh (new_seq_length (s.top + shorter + 1))
          (record s { length = shorter }) in
      elim (memmove t.buf (t.data_offset + i) t.buf (t.data_offset + i + 1) (t.length - i)) [
        | none ↦ (fault, t)
        | some b ↦ elim (store b (t.data_offset + t.length) 0) [
          | none ↦ (fault, t)
          | some d ↦ (ok (some c), record t { buf = d; changed_p = true })
        ]
      ]
]

unfoldable pub string_delete_at : (ℕ → ℕ) → ℕ → FString → Method (Option ℕ)
unfolding string_delete_inside
string_delete_at fresh i s =
    if i == 0
    then string_shift fresh s
    else if i == s.length - 1
    then string_pop fresh s
    else string_delete_inside fresh i s

-- `none` is `#f`, from an empty string whatever the index
unfoldable pub string_delete : (ℕ → ℕ) → ℤ → FString → Method (Option ℕ)
unfolding string_delete_at
string_delete fresh idx s =
    if s.length == 0 then (ok none, s) else elim (in_range (from_end idx s.length) s.length) [
      | none ↦ (throw out_of_range, s)
      | some i ↦ string_delete_at fresh i s
    ]

-- `memset (data, c, length)`
unfoldable pub string_fill : ℕ → FString → Method (Unit {0})
string_fill c s = elim (store_each (λ _. some c) s.data_offset 0 s.length s.buf) [
  | none ↦ (fault, s)
  | some b ↦ (ok tt, record s { buf = b; changed_p = true })
]
