-- ===== src/Strings/Chars/Chomp.antt =====
-- fth_string_chomp takes a newline off the end.
use fth.Base.{
  ℕ, zero, suc, ◌+◌, ◌-◌, ◌<◌, ◌≡◌, refl, sym, ap, ◌∙◌, inl, inr, true, false, ◌==◌, ==_iff,
  if◌then◌else◌, List, [], ◌∷◌, ◌++◌, arith, Bool-cases, ok, Option, none, some,
}
use mathlib.Core.Path.{subst}
use fth.Memory.Slice.{slice, slice_snoc}
use fth.Memory.Writes.{load-in}
use fth.Strings.{FString, view}
use fth.Strings.Valid.{IsValid, Yields}
use fth.Strings.Ends.{string_pop}
use fth.Strings.Ends.Pop.{string_pop-Yields}
use fth.Strings.Chars.{string_chomp}

-- the characters without a newline at the end
abbrev pub chomped : List ℕ → List ℕ
chomped [] = []
chomped (c ∷ []) = if c == 10 then [] else c ∷ []
chomped (c ∷ d ∷ cs) = c ∷ chomped (d ∷ cs)

chomped_snoc :
    (cs : List ℕ) (c : ℕ) → chomped (cs ++ c ∷ []) ≡ (if c == 10 then cs else cs ++ c ∷ [])
chomped_snoc [] c = refl
chomped_snoc (a ∷ []) c = ground arith
chomped_snoc (a ∷ b ∷ cs) c = ap (λ l. a ∷ l) (chomped_snoc (b ∷ cs) c) ∙ branch (c == 10)
  where
    branch :
        (t : _)
        → a ∷ (if t then b ∷ cs else (b ∷ cs) ++ c ∷ [])
          ≡ (if t then a ∷ b ∷ cs else (a ∷ b ∷ cs) ++ c ∷ [])
    branch true = refl
    branch false = refl

chomp_keeps :
    (fresh : ℕ → ℕ) (s : FString) (i : ℕ)
    → s.data_offset + s.length - 1 ≡ i
    → i < s.buf.size
    → (s.buf.cell i == 10) ≡ false
    → string_chomp fresh s ≡ (ok tt, s)
unfolding string_chomp
chomp_keeps fresh s i e lt t = let first = load-in s.buf i lt in rw (e, first, t, string_chomp) refl

chomp_pops :
    (fresh : ℕ → ℕ) (s : FString) (i : ℕ) (r : Option ℕ)
    → s.data_offset + s.length - 1 ≡ i
    → i < s.buf.size
    → (s.buf.cell i == 10) ≡ true
    → (string_pop fresh s).0 ≡ ok r
    → string_chomp fresh s ≡ (ok tt, (string_pop fresh s).1)
unfolding string_chomp
chomp_pops fresh s i r e lt t run =
    let first = load-in s.buf i lt in rw (e, first, t, run, string_chomp) refl

pop_nothing : (fresh : ℕ → ℕ) (s : FString) → s.length ≡ 0 → string_pop fresh s ≡ (ok none, s)
unfolding string_pop
pop_nothing fresh s e =
    let t : (s.length == 0) ≡ true = (==_iff s.length 0).1 e in rw (t, string_pop) refl

-- The byte that an empty string reads is in front of its characters, and no matter what it is the
-- string stays.
chomp_empty :
    (fresh : ℕ → ℕ) (s : FString) → IsValid s → s.length ≡ 0 → string_chomp fresh s ≡ (ok tt, s)
chomp_empty fresh s v e =
    let b = v.bounded in
    let i = s.data_offset + s.length - 1 in
    let lt : i < s.buf.size = omega (arith, b.sized, b.aimed, b.fits, b.clear, e) in
    let run = pop_nothing fresh s e in
    elim (Bool-cases (s.buf.cell i == 10)) [
      | inr t ↦ chomp_keeps fresh s i refl lt t
      | inl t ↦
          chomp_pops fresh s i none refl lt t (ap (λ (r : _ × _). r.0) run)
          ∙ ap (λ (r : _ × FString). (ok tt, r.1)) run
    ]

-- `string_chomp` of a valid string takes off a newline at the end, where there is one, and leaves
-- the string valid.
pub string_chomp-Yields :
    (fresh : ℕ → ℕ) (s : FString) → IsValid s → Yields (string_chomp fresh s) tt (chomped (view s))
string_chomp-Yields fresh s v = by_length s.length refl
  where
    by_length : (n : ℕ) → s.length ≡ n → Yields (string_chomp fresh s) tt (chomped (view s))
    by_length zero e =
        let none_there = ap (slice s.buf.cell s.data_offset) e in
        subst (λ r. Yields r tt (chomped (view s))) (sym (chomp_empty fresh s v e))
          (record { returns = refl; valid = v; holds = none_there ∙ sym (ap chomped none_there) })
    by_length (suc n) e =
        let b = v.bounded in
        let i = s.data_offset + n in
        let c = s.buf.cell i in
        let cs = slice s.buf.cell s.data_offset n in
        let at : s.data_offset + s.length - 1 ≡ i = omega (arith, e) in
        let lt : i < s.buf.size = omega (arith, b.sized, b.aimed, b.fits, e) in
        let whole : view s ≡ cs ++ c ∷ [] =
          ap (slice s.buf.cell s.data_offset) {y = n + 1} (omega (arith, e))
          ∙ slice_snoc s.buf.cell s.data_offset n in
        let cut = ap chomped whole ∙ chomped_snoc cs c in
        elim (Bool-cases (c == 10)) [
          | inr t ↦
              subst (λ r. Yields r tt (chomped (view s))) (sym (chomp_keeps fresh s i at lt t))
                (record {
                  returns = refl;
                  valid = v;
                  holds = whole ∙ sym (cut ∙ ap (λ x. if x then cs else cs ++ c ∷ []) t);
                })
          | inl t ↦
              let y = string_pop-Yields fresh s cs c v whole in
              subst (λ r. Yields r tt (chomped (view s)))
                (sym (chomp_pops fresh s i (some c) at lt t y.returns))
                (record {
                  returns = refl;
                  valid = y.valid;
                  holds = y.holds ∙ sym (cut ∙ ap (λ x. if x then cs else cs ++ c ∷ []) t);
                })
        ]
