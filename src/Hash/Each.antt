-- ===== src/Hash/Each.antt =====
-- fth_hash_each of src/hash.c: the loop over all items.
use fth.Base.{
  ℕ, zero, suc, ◌+◌, ◌<◌, ◌≤◌, ◌≡◌, refl, sym, ap, ◌∙◌, List, [], ◌∷◌, some, arith, Outcome, ◌>>=◌,
  bind_congr, length,
}
use fth.Memory.{load}
use fth.Memory.Writes.{load-in}
use fth.Hash.{Keys, FItem, FHash}
use fth.Hash.Loops.{each_in, each_from, hash_each}
use fth.Hash.Chain.{Lawful, Good, value_of}
use fth.Hash.Valid.{IsValid, lookup}
use fth.Hash.Entries.{flat, entries, fold, fold-append, Apart, entries-Lists}

module _ {ℓ κ} {A : Type ℓ} (K : Keys A) {S : Type κ} (func : A → A → S → Outcome S) where
  each_in-fold :
      (n i : ℕ) (c : List (FItem A)) (acc : S)
      → Good K n i c
      → each_in K func c acc ≡ fold func c acc
  unfolding each_in
  each_in-fold n i [] acc g = refl
  each_in-fold n i (e ∷ c) acc (is, at, apart, rest) =
      rw (is, each_in)
        (bind_congr (func e.key e.value acc) (each_in K func c) (fold func c)
          (λ s. each_in-fold n i c s rest))

  each_from_step :
      (i n : ℕ) (h : FHash A) (acc : S)
      → load h.buckets i ≡ some (h.buckets.cell i)
      → each_from K func i (suc n) h acc
        ≡ (each_in K func (h.buckets.cell i) acc >>= each_from K func (suc i) n h)
  unfolding each_from
  each_from_step i n h acc e = rw (e, each_from)

  each_from-fold :
      (i n : ℕ) (h : FHash A) (acc : S)
      → i + n ≤ h.buckets.size
      → ((j : ℕ) → j < i + n → Good K h.hash_size j (h.buckets.cell j))
      → each_from K func i n h acc ≡ fold func (flat h.buckets.cell i n) acc
  unfolding each_from
  each_from-fold i zero h acc fits g = refl
  each_from-fold i (suc n) h acc fits g =
      each_from_step i n h acc (load-in h.buckets i (omega arith))
      ∙ ap (λ o. o >>= each_from K func (suc i) n h)
          (each_in-fold h.hash_size i (h.buckets.cell i) acc (g i (omega arith)))
      ∙ bind_congr (fold func (h.buckets.cell i) acc) (each_from K func (suc i) n h)
          (fold func (flat h.buckets.cell (suc i) n))
          (λ s. each_from-fold (suc i) n h s (omega arith) (λ j lt. g j (omega arith)))
      ∙ sym (fold-append func (h.buckets.cell i) (flat h.buckets.cell (suc i) n) acc)

  pub hash_each-fold :
      (h : FHash A) (acc : S) → IsValid K h → hash_each K func h acc ≡ fold func (entries h) acc
  unfolding hash_each
  hash_each-fold h acc v =
      each_from-fold 0 h.hash_size h acc (omega (arith, v.sized)) (λ j lt. v.good j (omega arith))

  -- `hash_each` of a valid hash runs the function on a list of pairs in turn: as many as the length
  -- of the hash, no two with equal keys, and with the values that the hash has for its keys.
  pub hash_each-Lists :
      (h : FHash A) (acc : S)
      → Lawful K
      → IsValid K h
      → (items : List (FItem A)) × (hash_each K func h acc ≡ fold func items acc)
        × (length items ≡ h.length)
        × Apart K items
        × ((k : A) → value_of K k items ≡ lookup K h k)
  hash_each-Lists h acc L v =
      let (size, apart, same) = entries-Lists K h L v in
      (entries h, hash_each-fold h acc v, size, apart, same)
