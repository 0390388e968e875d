-- ===== src/Strings/Ends/Push.antt =====
-- fth_string_push appends.
use fth.Base.{
  ℕ, ◌+◌, ◌≤◌, ◌≡◌, refl, sym, ap, ◌∙◌, ◌⊎◌, inl, inr, true, false, List, [], ◌++◌, arith, ◌==◌,
  ==_iff, Bool-cases, ok, throw, out_of_range, false,
}
use mathlib.Core.Path.{subst, ap₂}
use mathlib.Core.List.{append-nil}
use fth.Memory.{moved}
use fth.Memory.Slice.{slice, slice-append}
use fth.Memory.Writes.{
  memmove-in, store-in, slice-moved_inside, slice-moved_outside, slice-update_outside, update_eq,
}
use fth.Strings.{FString, view, string_reserve}
use fth.Strings.Valid.{IsValid, Yields, Refuses, Resized, string_reserve-Resized}
use fth.Strings.Ends.{
  Added, another, itself, added_length, added_buf, added_data, append_bytes, string_push,
}

-- The added string is sound where it is another one.
abbrev pub IsSound : Added → Type 0
IsSound (another a) = IsValid a
IsSound itself = Unit

-- the characters that are added to `s`
abbrev pub added_view : Added → FString → List ℕ
added_view (another a) s = view a
added_view itself s = view s

-- The bytes that are added lie in their block, and are those of the added characters.
pub added-bytes :
    (add : Added) (s : FString)
    → IsSound add
    → IsValid s
    → (added_data add s + added_length add s ≤ (added_buf add s).size)
      × (slice (added_buf add s).cell (added_data add s) (added_length add s) ≡ added_view add s)
added-bytes (another a) s w v = let b = w.bounded in (omega (arith, b.sized, b.aimed, b.fits), refl)
added-bytes itself s w v = let b = v.bounded in (omega (arith, b.sized, b.aimed, b.fits), refl)

append_bytes-Yields :
    (add : Added) (s : FString)
    → IsSound add
    → IsValid s
    → s.top + s.length + added_length add s + 1 ≤ s.buf_length
    → Yields (append_bytes add (added_length add s) s) tt (view s ++ added_view add s)
unfolding append_bytes
append_bytes-Yields add s w v room =
    let b = v.bounded in
    let al = added_length add s in
    let (within, bytes) = added-bytes add s w v in
    let g =
      moved s.buf.cell (added_buf add s).cell (s.data_offset + s.length) (added_data add s) al in
    let first =
      memmove-in s.buf (s.data_offset + s.length) (added_buf add s) (added_data add s) al
        (omega (arith, b.sized, b.aimed, room)) within in
    let second =
      store-in (record s.buf { cell = g }) (s.data_offset + (s.length + al)) 0
        (omega (arith, b.sized, b.aimed, room)) in
    rw (first, second, append_bytes)
      (record {
        returns = refl;
        valid = record {
          bounded = record {
            sized = b.sized;
            aimed = b.aimed;
            fits = omega (arith, room);
            clear = b.clear;
            wide = b.wide;
          };
          ended =
              update_eq g (s.data_offset + (s.length + al)) 0 (s.data_offset + (s.length + al))
                refl;
        };
        holds =
            slice-update_outside g (s.data_offset + (s.length + al)) 0 s.data_offset (s.length + al)
              (inr (omega arith))
            ∙ slice-append g s.data_offset s.length al
            ∙ ap₂ ◌++◌
                (slice-moved_outside s.buf.cell (added_buf add s).cell (s.data_offset + s.length)
                  (added_data add s) al s.data_offset s.length (inl (omega arith)))
                (slice-moved_inside s.buf.cell (added_buf add s).cell (s.data_offset + s.length)
                    (added_data add s) al
                  ∙ bytes);
      })

pub empty_added : (add : Added) (s : FString) → added_length add s ≡ 0 → added_view add s ≡ []
empty_added (another a) s e = ap (slice a.buf.cell a.data_offset) e
empty_added itself s e = ap (slice s.buf.cell s.data_offset) e

-- What is added is not changed by the growth of the string that it is added to.
pub added-Resized :
    (add : Added) (s b : FString)
    → Resized s b
    → (added_length add b ≡ added_length add s) × (added_view add b ≡ added_view add s)
added-Resized (another a) s b r = (refl, refl)
added-Resized itself s b r = (r.same_length, r.same_view)

push_grown :
    (fresh : ℕ → ℕ) (add : Added) (s b : FString)
    → (added_length add s == 0) ≡ false
    → string_reserve fresh (s.top + s.length + added_length add s + 1) s ≡ ok b
    → string_push fresh add s ≡ append_bytes add (added_length add s) b
unfolding string_push
push_grown fresh add s b f run = rw (f, run, string_push)

push_refuses :
    (fresh : ℕ → ℕ) (add : Added) (s : FString)
    → (added_length add s == 0) ≡ false
    → string_reserve fresh (s.top + s.length + added_length add s + 1) s ≡ throw out_of_range
    → string_push fresh add s ≡ (throw out_of_range, s)
unfolding string_push
push_refuses fresh add s f run = rw (f, run, string_push)

push_nothing :
    (fresh : ℕ → ℕ) (add : Added) (s : FString)
    → (added_length add s == 0) ≡ true
    → string_push fresh add s ≡ (ok tt, s)
unfolding string_push
push_nothing fresh add s t = rw (t, string_push)

-- `string_push` appends the characters of another valid string, or those of the string itself, to a
-- valid string and leaves it valid; or else it raises OUT-OF-RANGE because the grown buffer would
-- be longer than the limit, and leaves the string as it was.
pub string_push-Yields :
    (fresh : ℕ → ℕ) (add : Added) (s : FString)
    → IsSound add
    → IsValid s
    → Yields (string_push fresh add s) tt (view s ++ added_view add s)
      ⊎ Refuses (string_push fresh add s) s (s.top + s.length + added_length add s + 1)
string_push-Yields fresh add s w v = elim (Bool-cases (added_length add s == 0)) [
  | inl t ↦ inl (
      subst (λ r. Yields r tt (view s ++ added_view add s)) (sym (push_nothing fresh add s t))
        (record {
          returns = refl;
          valid = v;
          holds =
              sym (append-nil (view s))
              ∙ ap (λ l. view s ++ l)
                  (sym (empty_added add s ((==_iff (added_length add s) 0).0 t)));
        }))
  | inr f ↦
      elim (string_reserve-Resized fresh (s.top + s.length + added_length add s + 1) s v
        (omega arith)) [
          | inr (run, short, long) ↦ inr (push_refuses fresh add s f run, short, long)
          | inl (b, run, r, room) ↦
              let (len, chars) = added-Resized add s b r in
              let y =
                append_bytes-Yields add b w r.valid
                  (omega (arith, room, len, r.same_top, r.same_length)) in
              inl (
                subst (λ m. Yields m tt (view s ++ added_view add s))
                  (sym (push_grown fresh add s b f run))
                  (subst (λ n. Yields (append_bytes add n b) tt (view s ++ added_view add s)) len
                    (subst (Yields (append_bytes add (added_length add b) b) tt)
                      (ap₂ ◌++◌ r.same_view chars) y)))
        ]
]
