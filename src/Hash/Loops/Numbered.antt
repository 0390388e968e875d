-- ===== src/Hash/Loops/Numbered.antt =====
-- ficl_make_hash_with_len of src/hash.c, the word `make-hash-with-len`.
use fth.Base.{
  ℕ, zero, suc, ◌<◌, ◌≡◌, refl, ap, ◌∙◌, Bool, true, false, ◌==◌, ==_iff, Bool-cases, inl, inr,
  Option, some, arith, Outcome, ok, ◌>>=◌, pos, ℤ, negsuc, if◌then◌else◌,
}
use fth.Hash.{Keys, FHash, make_hash, default_hash_size}
use fth.Hash.Loops.{put_round}
use fth.Hash.Chain.{Lawful}
use fth.Hash.Valid.{IsValid, lookup}
use fth.Hash.Fresh.{make_hash-Empty}
use fth.Hash.Fill.{put_round-Puts}

-- `make_int` is fth_make_int, `nil` is FTH_NIL
module _ {ℓ} {A : Type ℓ} (K : Keys A) (make_int : ℕ → A) (nil : A) where
  -- `while (len-- > 0) fth_hash_set (hash, fth_make_int (len), FTH_NIL)`
  unfoldable pub put_numbers : ℕ → FHash A → Outcome (FHash A)
  put_numbers zero h = ok h
  put_numbers (suc len) h = put_round K (make_int len) nil h >>= put_numbers len

  unfoldable pub make_hash_with_len : ℤ → Outcome (FHash A)
  make_hash_with_len (negsuc k) = ok (make_hash (pos default_hash_size))
  make_hash_with_len (pos len) = put_numbers len (make_hash (pos default_hash_size))

  put_numbers-lookup :
      (len : ℕ) (h : FHash A)
      → Lawful K
      → IsValid K h
      → ((n : ℕ) → K.is_key (make_int n) ≡ true)
      → (h' : FHash A) × (put_numbers len h ≡ ok h')
        × IsValid K h'
        × ((n : ℕ) → n < len → lookup K h' (make_int n) ≡ some nil)
        × ((k : A) → lookup K h k ≡ some nil → lookup K h' k ≡ some nil)
  unfolding put_numbers
  put_numbers-lookup zero h L v is = (h, refl, v, (λ n lt. absurd (omega arith)), λ k e. e)
  put_numbers-lookup (suc len) h L v is =
      let (h₁, run, p) = put_round-Puts K (make_int len) nil h L v (is len) in
      let (h', onward, v', there, kept) = put_numbers-lookup len h₁ L p.valid is in
      (
        h',
        ap (λ o. o >>= put_numbers len) run ∙ onward,
        v',
        (λ n lt. elim (Bool-cases (n == len)) [
          | inl t ↦
              ap (λ m. lookup K h' (make_int m)) ((==_iff n len).0 t)
              ∙ kept (make_int len) (p.looks (make_int len) ∙ rw (L.refl_of (make_int len)))
          | inr f ↦ there n (ground arith)
        ]),
        λ k e. kept k (p.looks k ∙ still (K.equal k (make_int len)) (lookup K h k) e),
      )
    where
      still : (b : Bool) (o : Option A) → o ≡ some nil → (if b then some nil else o) ≡ some nil
      still true o e = refl
      still false o e = e

  -- A hash made with a length has nil for every number below it.
  pub make_hash_with_len-lookup :
      (len : ℕ)
      → Lawful K
      → ((n : ℕ) → K.is_key (make_int n) ≡ true)
      → (h : FHash A) × (make_hash_with_len (pos len) ≡ ok h)
        × IsValid K h
        × ((n : ℕ) → n < len → lookup K h (make_int n) ≡ some nil)
  unfolding make_hash_with_len
  make_hash_with_len-lookup len L is =
      let (h, run, v, there, _) =
        put_numbers-lookup len (make_hash (pos default_hash_size)) L
          (make_hash-Empty K (pos default_hash_size)).valid is in
      (h, run, v, there)
