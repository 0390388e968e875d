-- ===== src/Strings/Rounds.antt =====
-- Operations of src/string.c one after the other.
use fth.Base.{
  ℕ, ◌+◌, ◌≡◌, ◌<◌, sym, ap, ◌∙◌, ◌⊎◌, inl, inr, true, [], ◌∷◌, ◌++◌, length, ok, throw,
  out_of_range, some,
}
use mathlib.Core.Path.{subst}
use fth.Array.{max_seq_length}
use fth.Strings.{FString, view}
use fth.Strings.Valid.{IsValid, IsText, Yields, Refuses}
use fth.Strings.Ends.{another, string_push, string_pop}
use fth.Strings.Ends.Push.{string_push-Yields}
use fth.Strings.Ends.Pop.{string_pop-Yields}
use fth.Strings.Libc.Text.{IsText-until_nul}
use fth.Strings.Make.{string_copy}
use fth.Strings.Make.Copy.{string_copy-Creates}
use fth.Strings.Compare.{string_equal_p}
use fth.Strings.Compare.Equal.{IsReadable, string_compare-view}

-- Where a valid string of one character is pushed to a valid string, popping gives that character
-- back and leaves a valid string that holds what the first held; unless the push raises
-- OUT-OF-RANGE because the grown buffer would be longer than the limit, and leaves the string as it
-- was.
pub string_pop-string_push :
    (fresh fresh' : ℕ → ℕ) (add s : FString) (c : ℕ)
    → IsValid add
    → view add ≡ c ∷ []
    → IsValid s
    → Yields (string_pop fresh' (string_push fresh (another add) s).1) (some c) (view s)
      ⊎ Refuses (string_push fresh (another add) s) s (s.top + s.length + add.length + 1)
string_pop-string_push fresh fresh' add s c w one v =
    elim (string_push-Yields fresh (another add) s w v) [
      | inr refused ↦ inr refused
      | inl y ↦ inl (
          string_pop-Yields fresh' (string_push fresh (another add) s).1 (view s) c y.valid
            (y.holds ∙ ap (λ l. view s ++ l) one))
    ]

-- The copy of a valid string without NUL characters is valid, holds the same characters and is equal
-- to it by `string_equal_p`; or else OUT-OF-RANGE is raised because there are more characters than
-- the limit.
pub string_equal_p-string_copy :
    (s : FString)
    → IsReadable s
    → ((c : FString) × (string_copy s ≡ ok c)
        × IsValid c
        × (view c ≡ view s)
        × (string_equal_p (some s) (some c) ≡ ok true))
      ⊎ ((string_copy s ≡ throw out_of_range) × (max_seq_length < length (view s)))
string_equal_p-string_copy s r =
    let all = IsText-until_nul (view s) r.text in
    elim (string_copy-Creates s r.valid) [
      | inr (run, long) ↦ inr (run, subst (λ l. max_seq_length < length l) all long)
      | inl (c, run, v, holds) ↦
          let same : view c ≡ view s = holds ∙ all in
          let q : IsReadable c = record { valid = v; text = subst IsText (sym same) r.text } in
          let (b, said, means) = (string_compare-view s c r q).0 in
          inl (c, run, v, same, said ∙ ap (λ x. ok x) (means.1 (sym same)))
    ]
