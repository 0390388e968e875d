-- ===== src/Strings/Compare/Find.antt =====
-- fth_string_index, fth_string_member_p and fth_string_find look for the first place of a string in
-- another.
use fth.Base.{
  ℕ, zero, suc, ◌+◌, ◌-◌, ◌<◌, ◌≤◌, ◌≡◌, ◌↔◌, refl, sym, ap, ◌∙◌, ◌⊎◌, inl, inr, Bool, true, false,
  ℤ, pos, negsuc, List, [], ◌∷◌, drop, length, Outcome, ok, throw, out_of_range, Option, none, some,
  arith,
}
use fth.Memory.Slice.{length-slice, drop-slice}
use fth.Array.{max_seq_length}
use fth.Strings.{FString, view}
use fth.Strings.Valid.{IsValid, IsText}
use fth.Strings.Libc.{c_string, strstr}
use fth.Strings.Libc.Text.{c_string-IsText, scan-slice, until_nul, IsText-until_nul}
use fth.Strings.Libc.Search.{FoundFirst, Finds, strstr-Finds}
use fth.Strings.Make.Fresh.{make_string-Creates}
use fth.Strings.Compare.{find_data, string_index, string_member_p, string_find}
use fth.Strings.Compare.Equal.{IsReadable}

pub find_data-view :
    (s key : FString)
    → IsReadable s
    → IsReadable key
    → find_data s key ≡ ok (strstr (view s) (view key))
unfolding find_data
find_data-view s key r q =
    let first = c_string-IsText s r.valid r.text in
    let second = c_string-IsText key q.valid q.text in rw (first, second, find_data) refl

-- What an index says: the first place of the key, or -1 where it has none.
abbrev pub Located : List ℕ → List ℕ → ℤ → Type 0
Located key cs (pos i) = FoundFirst key cs i
Located key cs (negsuc k) = (k ≡ 0) × Finds key cs none

-- `string_index` gives the first place of a string in another, and -1 where there is none.
pub string_index-Located :
    (s key : FString)
    → IsReadable s
    → IsReadable key
    → (z : ℤ) × (string_index s key ≡ ok z) × Located (view key) (view s) z
unfolding string_index
string_index-Located s key r q =
    let run = find_data-view s key r q in
    go (strstr (view s) (view key)) run (strstr-Finds (view s) (view key))
  where
    go :
        (found : Option ℕ)
        → find_data s key ≡ ok found
        → Finds (view key) (view s) found
        → (z : ℤ) × (string_index s key ≡ ok z) × Located (view key) (view s) z
    go none run h = (negsuc 0, rw (run, string_index) refl, (refl, h))
    go (some i) run h = (pos i, rw (run, string_index) refl, h)

-- `string_member?` agrees with `string_index`: true where that gives a place, false where it gives
-- -1.
pub string_member_p-string_index :
    (s key : FString)
    → IsReadable s
    → IsReadable key
    → (b : Bool) × (z : ℤ) × (string_member_p s key ≡ ok b)
      × (string_index s key ≡ ok z)
      × ((b ≡ true) ↔ ((i : ℕ) × (z ≡ pos i)))
unfolding string_index string_member_p
string_member_p-string_index s key r q =
    let run = find_data-view s key r q in go (strstr (view s) (view key)) run
  where
    go :
        (found : Option ℕ)
        → find_data s key ≡ ok found
        → (b : Bool) × (z : ℤ) × (string_member_p s key ≡ ok b)
          × (string_index s key ≡ ok z)
          × ((b ≡ true) ↔ ((i : ℕ) × (z ≡ pos i)))
    go none run = (
      false,
      negsuc 0,
      rw (run, string_member_p) refl,
      rw (run, string_index) refl,
      ((λ e. absurd (ground (arith, e))), (λ e. let same = e.1 in absurd (ground (arith, same)))),
    )
    go (some i) run = (
      true,
      pos i,
      rw (run, string_member_p) refl,
      rw (run, string_index) refl,
      ((λ _. (i, refl)), (λ _. refl)),
    )

-- What `string_find` returns: the string from the first place of the key on, or `#f`.
abbrev pub FindsRest : Outcome (Option FString) → List ℕ → List ℕ → Type 0
FindsRest r key cs =
    ((r ≡ ok none) × Finds key cs none)
    ⊎ ((i : ℕ) × FoundFirst key cs i
        × (((t : FString) × (r ≡ ok (some t)) × IsValid t × (view t ≡ drop i cs))
            ⊎ ((r ≡ throw out_of_range) × (max_seq_length < length (drop i cs)))))

-- A place of a key is one in the text.
placed : (key cs : List ℕ) (i : ℕ) → FoundFirst key cs i → i ≤ length cs
placed key cs i f = first_place cs i f
  where
    first_place : (cs : List ℕ) (i : ℕ) → FoundFirst key cs i → i ≤ length cs
    first_place cs zero f = omega arith
    first_place [] (suc i) f = absurd (f.first 0 (omega arith) f.stands)
    first_place (c ∷ cs) (suc i) f =
        let h =
          first_place cs i
            (record { stands = f.stands; first = λ j lt s. f.first (suc j) (omega arith) s }) in
        omega (arith, h)

IsText-drop : (i : ℕ) (cs : List ℕ) → IsText cs → IsText (drop i cs)
IsText-drop zero cs t = t
IsText-drop (suc i) [] t = t
IsText-drop (suc i) (c ∷ cs) (h, t) = IsText-drop i cs t

rest_read :
    (s : FString) (i : ℕ)
    → IsReadable s
    → i ≤ s.length
    → c_string (record { block = s.buf; offset = s.data_offset + i }) ≡ some (drop i (view s))
rest_read s i r le =
    let b = r.valid.bounded in
    let cut = drop-slice s.buf.cell s.data_offset i s.length le in
    scan-slice s.buf.cell (s.data_offset + i) (s.length - i) (s.buf.size - (s.data_offset + i))
      (omega (arith, b.sized, b.aimed, b.fits))
      (ap s.buf.cell {y = s.data_offset + s.length} (omega (arith, le)) ∙ r.valid.ended)
    ∙ ap (λ l. some (until_nul l)) (sym cut)
    ∙ ap (λ l. some l) (IsText-until_nul (drop i (view s)) (IsText-drop i (view s) r.text))

-- `string_find` makes a valid string of the characters from the first place of the key on, gives
-- `#f` where there is none, or raises OUT-OF-RANGE because there are more than the limit.
pub string_find-FindsRest :
    (s key : FString)
    → IsReadable s
    → IsReadable key
    → FindsRest (string_find s key) (view key) (view s)
unfolding string_find
string_find-FindsRest s key r q =
    let run = find_data-view s key r q in
    go (strstr (view s) (view key)) run (strstr-Finds (view s) (view key))
  where
    go :
        (found : Option ℕ)
        → find_data s key ≡ ok found
        → Finds (view key) (view s) found
        → FindsRest (string_find s key) (view key) (view s)
    go none run h = inl (rw (run, string_find) refl, h)
    go (some i) run h =
        let le = placed (view key) (view s) i h in
        let len = length-slice s.buf.cell s.data_offset s.length in
        elim (make_string-Creates (some (record { block = s.buf; offset = s.data_offset + i }))
          (drop i (view s)) (rest_read s i r (omega (arith, le, len)))) [
            | inl (t, made, v, e) ↦ inr (i, h, inl (t, rw (run, made, string_find) refl, v, e))
            | inr (refused, long) ↦ inr (i, h, inr (rw (run, refused, string_find) refl, long))
          ]
