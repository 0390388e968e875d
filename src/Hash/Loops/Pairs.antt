-- ===== src/Hash/Loops/Pairs.antt =====
-- ficl_values_to_hash of src/hash.c, the word `>hash`.
use fth.Base.{
  ◌*◌, ◌%◌, ◌/◌, ◌≡◌, refl, ap, ◌∙◌, false, List, [], ◌∷◌, Option, none, some, if◌then◌else◌, arith,
  ok, ◌>>=◌, length, pos, ◌==◌,
}
use fth.Hash.{Keys, FItem, FHash, make_hash, default_hash_size}
use fth.Hash.Loops.{put_pairs, values_to_hash}
use fth.Hash.Chain.{Lawful}
use fth.Hash.Valid.{IsValid, lookup}
use fth.Hash.Fresh.{make_hash-Empty}
use fth.Hash.Fill.{Present, put_round-Puts}

-- The stack that holds pairs, the top one first: a value above its key.
abbrev pub stacked {ℓ} : {A : Type ℓ} → List (FItem A) → List A → List A
stacked [] below = below
stacked (e ∷ items) below = e.value ∷ e.key ∷ stacked items below

module _ {ℓ} {A : Type ℓ} (K : Keys A) where
  -- the value for a key after the pairs have been put over `old` in turn: that of the last one
  abbrev pub last_value : A → List (FItem A) → Option A → Option A
  last_value k [] old = old
  last_value k (e ∷ items) old = last_value k items (if K.equal k e.key then some e.value else old)

  put_pairs-last_value :
      (items : List (FItem A)) (below : List A) (h : FHash A)
      → Lawful K
      → IsValid K h
      → Present K items
      → (h' : FHash A) × (put_pairs K (length items) (stacked items below) h ≡ ok h')
        × IsValid K h'
        × ((k : A) → lookup K h' k ≡ last_value k items (lookup K h k))
  unfolding put_pairs
  put_pairs-last_value [] below h L v is = (h, refl, v, λ k. refl)
  put_pairs-last_value (e ∷ items) below h L v (is, others) =
      let (h₁, run, p) = put_round-Puts K e.key e.value h L v is in
      let (h', onward, v', looks) = put_pairs-last_value items below h₁ L p.valid others in
      (
        h',
        ap (λ o. o >>= put_pairs K (length items) (stacked items below)) run ∙ onward,
        v',
        λ k. looks k ∙ ap (last_value k items) (p.looks k),
      )

  -- `>hash` of an even number of objects on the stack, with a key under each value and no key the null
  -- cell, makes a valid hash that has for each key the value of the lowest pair on the stack with an
  -- equal key, and no value for the other keys.
  pub values_to_hash-last_value :
      (items : List (FItem A)) (below : List A)
      → Lawful K
      → Present K items
      → (h : FHash A) × (values_to_hash K (pos (length items * 2)) (stacked items below) ≡ ok h)
        × IsValid K h
        × ((k : A) → lookup K h k ≡ last_value k items none)
  unfolding values_to_hash
  values_to_hash-last_value items below L is =
      let fresh = make_hash-Empty K (pos default_hash_size) in
      let (h, run, v, looks) =
        put_pairs-last_value items below (make_hash (pos default_hash_size)) L fresh.valid is in
      let even : ((length items * 2) % 2 == 1) ≡ false = ground arith in
      let half : (length items * 2) / 2 ≡ length items = omega arith in
      (
        h,
        rw (even, half, values_to_hash) run,
        v,
        λ k. looks k ∙ ap (last_value k items) (fresh.none_there k),
      )
