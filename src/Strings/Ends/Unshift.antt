-- ===== src/Strings/Ends/Unshift.antt =====
-- fth_string_unshift puts the added characters in front.
use fth.Base.{
  ℕ, ◌+◌, ◌-◌, ◌/◌, ◌≤◌, ◌<◌, ◌≡◌, refl, sym, ap, ◌∙◌, ◌⊎◌, inl, inr, true, false, ltb,
  if◌then◌else◌, ltb→lt, ltb_false→le, List, ◌++◌, arith, ◌==◌, ==_iff, Bool-cases, ok, throw,
  out_of_range,
}
use mathlib.Core.Path.{subst, ap₂}
use fth.Memory.{moved}
use fth.Memory.Slice.{slice, slice-append}
use fth.Memory.Writes.{
  memmove-in, store-in, slice-moved_inside, slice-moved_outside, slice-update_outside, update_eq,
}
use fth.Strings.{FString, view, string_reserve}
use fth.Strings.Valid.{IsValid, Yields, Refuses, Resized, string_reserve-Resized}
use fth.Strings.Ends.{
  Added, another, itself, added_length, added_buf, added_data, place_front, unshift_far,
  string_unshift,
}
use fth.Strings.Ends.Push.{IsSound, added_view, added-bytes, added-Resized, empty_added}

-- A string that is put in front of itself is still there to be read when the characters have moved.
abbrev pub IsApart : Added → FString → Type 0
IsApart (another a) s = Unit
IsApart itself s = (s.length < s.top) ⊎ (s.top ≤ s.buf_length / 3)

place_front-Yields :
    (add : Added) (al new_top : ℕ) (s : FString) (cs ds : List ℕ)
    → s.buf.size ≡ s.buf_length
    → 0 < new_top
    → 128 ≤ s.buf_length
    → new_top + (s.length + al) + 1 ≤ s.buf_length
    → added_data add s + al ≤ (added_buf add s).size
    → slice (added_buf add s).cell (added_data add s) al ≡ cs
    → slice s.buf.cell (new_top + al) s.length ≡ ds
    → Yields (place_front add al new_top s) tt (cs ++ ds)
unfolding place_front
place_front-Yields add al new_top s cs ds size clear wide room within bytes rest =
    let g = moved s.buf.cell (added_buf add s).cell new_top (added_data add s) al in
    let first =
      memmove-in s.buf new_top (added_buf add s) (added_data add s) al (omega (arith, size, room))
        within in
    let second =
      store-in (record s.buf { cell = g }) (new_top + (s.length + al)) 0
        (omega (arith, size, room)) in
    rw (first, second, place_front)
      (record {
        returns = refl;
        valid = record {
          bounded = record { sized = size; aimed = refl; fits = room; clear = clear; wide = wide };
          ended = update_eq g (new_top + (s.length + al)) 0 (new_top + (s.length + al)) refl;
        };
        holds =
            slice-update_outside g (new_top + (s.length + al)) 0 new_top (s.length + al)
              (inr (omega arith))
            ∙ ap (slice g new_top) {y = al + s.length} (omega arith)
            ∙ slice-append g new_top al s.length
            ∙ ap₂ ◌++◌
                (slice-moved_inside s.buf.cell (added_buf add s).cell new_top (added_data add s) al
                  ∙ bytes)
                (slice-moved_outside s.buf.cell (added_buf add s).cell new_top (added_data add s) al
                    (new_top + al) s.length (inr (omega arith))
                  ∙ rest);
      })

-- the string once its characters have moved behind a third of the buffer
moved_up : FString → ℕ → FString
moved_up b start = record b {
  buf = record b.buf { cell = moved b.buf.cell b.buf.cell start b.data_offset b.length };
}

-- What is added can still be read when the characters have moved.
moved-bytes :
    (add : Added) (s b : FString) (start : ℕ)
    → IsSound add
    → IsApart add s
    → Resized s b
    → s.top < added_length add s + 1
    → s.buf_length / 3 + added_length add s ≡ start
    → (added_data add (moved_up b start) + added_length add s
        ≤ (added_buf add (moved_up b start)).size)
      × (slice
            (added_buf add (moved_up b start)).cell
            (added_data add (moved_up b start))
            (added_length add s)
          ≡ added_view add s)
unfolding moved_up
moved-bytes (another a) s b start w apart r short e = added-bytes (another a) b w r.valid
moved-bytes itself s b start w (inl long) r short e = absurd (omega (arith, long, short))
moved-bytes itself s b start w (inr low) r short e =
    let k = r.valid.bounded in
    (
      omega (arith, k.sized, k.aimed, k.fits, r.same_length),
      slice-moved_outside b.buf.cell b.buf.cell start b.data_offset b.length b.data_offset s.length
            (inl (omega (arith, low, e, k.aimed, r.same_top)))
          ∙ ap (slice b.buf.cell b.data_offset) (sym r.same_length)
          ∙ r.same_view,
    )

far_run :
    (fresh : ℕ → ℕ) (add : Added) (al : ℕ) (s b : FString)
    → string_reserve fresh (s.buf_length / 3 + (s.length + al) + 1) s ≡ ok b
    → b.data_offset + b.length ≤ b.buf.size
    → s.buf_length / 3 + al + b.length ≤ b.buf.size
    → unshift_far fresh add al s
      ≡ place_front add al (s.buf_length / 3) (moved_up b (s.buf_length / 3 + al))
unfolding unshift_far moved_up
far_run fresh add al s b run below above =
    let move = memmove-in b.buf (s.buf_length / 3 + al) b.buf b.data_offset b.length above below in
    rw (run, move, unshift_far)

far_refuses :
    (fresh : ℕ → ℕ) (add : Added) (al : ℕ) (s : FString)
    → string_reserve fresh (s.buf_length / 3 + (s.length + al) + 1) s ≡ throw out_of_range
    → unshift_far fresh add al s ≡ (throw out_of_range, s)
unfolding unshift_far
far_refuses fresh add al s run = rw (run, unshift_far)

near_run :
    (fresh : ℕ → ℕ) (add : Added) (s b : FString)
    → (added_length add s == 0) ≡ false
    → ltb s.top (added_length add s + 1) ≡ false
    → string_reserve fresh (s.top - added_length add s + (s.length + added_length add s) + 1) s
      ≡ ok b
    → string_unshift fresh add s
      ≡ place_front add (added_length add s) (s.top - added_length add s) b
unfolding string_unshift
near_run fresh add s b some_bytes far run = rw (some_bytes, far, run, string_unshift)

near_refuses :
    (fresh : ℕ → ℕ) (add : Added) (s : FString)
    → (added_length add s == 0) ≡ false
    → ltb s.top (added_length add s + 1) ≡ false
    → string_reserve fresh (s.top - added_length add s + (s.length + added_length add s) + 1) s
      ≡ throw out_of_range
    → string_unshift fresh add s ≡ (throw out_of_range, s)
unfolding string_unshift
near_refuses fresh add s some_bytes far run = rw (some_bytes, far, run, string_unshift)

goes_far :
    (fresh : ℕ → ℕ) (add : Added) (s : FString)
    → (added_length add s == 0) ≡ false
    → ltb s.top (added_length add s + 1) ≡ true
    → string_unshift fresh add s ≡ unshift_far fresh add (added_length add s) s
unfolding string_unshift
goes_far fresh add s some_bytes far = rw (some_bytes, far, string_unshift)

unshift_nothing :
    (fresh : ℕ → ℕ) (add : Added) (s : FString)
    → (added_length add s == 0) ≡ true
    → string_unshift fresh add s ≡ (ok tt, s)
unfolding string_unshift
unshift_nothing fresh add s none_added = rw (none_added, string_unshift)

-- the size that `string_unshift` asks for
abbrev pub unshift_needs : Added → FString → ℕ
unshift_needs add s =
    if ltb s.top (added_length add s + 1)
    then s.buf_length / 3 + (s.length + added_length add s) + 1
    else s.top - added_length add s + (s.length + added_length add s) + 1

unshift_far-Yields :
    (fresh : ℕ → ℕ) (add : Added) (s : FString)
    → IsSound add
    → IsValid s
    → IsApart add s
    → s.top < added_length add s + 1
    → Yields (unshift_far fresh add (added_length add s) s) tt (added_view add s ++ view s)
      ⊎ Refuses
          (unshift_far fresh add (added_length add s) s)
          s
          (s.buf_length / 3 + (s.length + added_length add s) + 1)
unfolding moved_up
unshift_far-Yields fresh add s w v apart short =
    let al = added_length add s in
    let start = s.buf_length / 3 + al in
    elim (string_reserve-Resized fresh (s.buf_length / 3 + (s.length + al) + 1) s v
      (omega (arith, short))) [
        | inr (run, small, long) ↦ inr (far_refuses fresh add al s run, small, long)
        | inl (b, run, r, room) ↦
            let k = r.valid.bounded in
            let (within, bytes) = moved-bytes add s b start w apart r short refl in
            inl (
              subst (λ m. Yields m tt (added_view add s ++ view s))
                (sym (
                  far_run fresh add al s b run (omega (arith, k.sized, k.aimed, k.fits))
                    (omega (arith, k.sized, room, r.same_length))))
                (place_front-Yields add al (s.buf_length / 3) (moved_up b start) (added_view add s)
                  (view s) k.sized (omega (arith, v.bounded.wide)) k.wide
                  (omega (arith, room, r.same_length)) within bytes
                  (slice-moved_inside b.buf.cell b.buf.cell start b.data_offset b.length
                    ∙ r.same_view)))
      ]

unshift_near-Yields :
    (fresh : ℕ → ℕ) (add : Added) (s : FString)
    → IsSound add
    → IsValid s
    → (added_length add s == 0) ≡ false
    → ltb s.top (added_length add s + 1) ≡ false
    → Yields (string_unshift fresh add s) tt (added_view add s ++ view s)
      ⊎ Refuses
          (string_unshift fresh add s)
          s
          (s.top - added_length add s + (s.length + added_length add s) + 1)
unshift_near-Yields fresh add s w v some_bytes near =
    let al = added_length add s in
    let room_left = ltb_false→le _ _ near in
    elim (string_reserve-Resized fresh (s.top - al + (s.length + al) + 1) s v
      (omega (arith, room_left))) [
        | inr (run, small, long) ↦ inr (near_refuses fresh add s some_bytes near run, small, long)
        | inl (b, run, r, room) ↦
            let k = r.valid.bounded in
            let (len, chars) = added-Resized add s b r in
            let (within, bytes) = added-bytes add b w r.valid in
            inl (
              subst (λ m. Yields m tt (added_view add s ++ view s))
                (sym (near_run fresh add s b some_bytes near run))
                (place_front-Yields add al (s.top - al) b (added_view add s) (view s) k.sized
                  (omega (arith, room_left)) k.wide (omega (arith, room, r.same_length))
                  (omega (arith, within, len))
                  (ap (slice (added_buf add b).cell (added_data add b)) (sym len) ∙ bytes ∙ chars)
                  (ap (λ i. slice b.buf.cell i b.length) {y = b.data_offset}
                      (omega (arith, room_left, k.aimed, r.same_top))
                    ∙ r.same_view)))
      ]

-- `string_unshift` puts the characters of another valid string, or its own, in front of those of a
-- valid string and leaves it valid; or else it raises OUT-OF-RANGE because the grown buffer would be
-- longer than the limit, and leaves the string as it was. A string that is put in front of itself
-- is shorter than the room in front of it, or its characters begin in the first third of the
-- buffer.
pub string_unshift-Yields :
    (fresh : ℕ → ℕ) (add : Added) (s : FString)
    → IsSound add
    → IsValid s
    → IsApart add s
    → Yields (string_unshift fresh add s) tt (added_view add s ++ view s)
      ⊎ Refuses (string_unshift fresh add s) s (unshift_needs add s)
string_unshift-Yields fresh add s w v apart = elim (Bool-cases (added_length add s == 0)) [
  | inl t ↦ inl (
      subst (λ r. Yields r tt (added_view add s ++ view s)) (sym (unshift_nothing fresh add s t))
        (record {
          returns = refl;
          valid = v;
          holds =
              sym (ap (λ l. l ++ view s) (empty_added add s ((==_iff (added_length add s) 0).0 t)));
        }))
  | inr f ↦ elim (Bool-cases (ltb s.top (added_length add s + 1))) [
    | inl far ↦
        rw (goes_far fresh add s f far, far)
          (unshift_far-Yields fresh add s w v apart (ltb→lt _ _ far))
    | inr near ↦ rw near (unshift_near-Yields fresh add s w v f near)
  ]
]
