-- ===== src/Hash/Mapped.antt =====
-- fth_hash_map and fth_hash_copy of src/hash.c: what the new hash has for each key.
use fth.Base.{
  ℕ, ◌≡◌, refl, sym, ap, ◌∙◌, ◌⊎◌, inl, inr, Bool, true, false, List, [], ◌∷◌, Option, none, some,
  if◌then◌else◌, Bool-cases, ok, pos, ◌==◌, ==_iff,
}
use mathlib.Core.Option
use fth.Hash.{Keys, FItem, FHash, hash_key_to_val, make_hash, find_entry, hash_find}
use fth.Hash.Loops.{hash_map, hash_copy}
use fth.Hash.Chain.{Lawful, Good, value_of, equal-congr_right}
use fth.Hash.Valid.{IsValid, lookup}
use fth.Hash.Lookup.{hash_key_to_val-lt, load_bucket, lookup_empty}
use fth.Hash.Fresh.{make_hash-Empty}
use fth.Hash.Images.{imaged, Faithful}
use fth.Hash.Rebuild.{rebuilt}

map-if {ℓ} :
    {A : Type ℓ} (b : Bool) (f : A → A) (x : A) (o : Option A)
    → (if b then some (f x) else Option.map f o) ≡ Option.map f (if b then some x else o)
map-if true f x o = refl
map-if false f x o = refl

module _ {ℓ} {A : Type ℓ} (K : Keys A) where
  -- What the image of a chain has for a key comes from the item that `find` finds.
  find_entry-imaged :
      (w : A → A → A) (n i : ℕ) (k : A) (c : List (FItem A))
      → Good K n i c
      → ((e : FItem A) × (find_entry K k c ≡ some e)
          × (value_of K k c ≡ some e.value)
          × (value_of K k (imaged K (λ x. x) w c) ≡ some (w e.key e.value)))
        ⊎ ((value_of K k c ≡ none) × (value_of K k (imaged K (λ x. x) w c) ≡ none))
  unfolding find_entry
  find_entry-imaged w n i k [] good = inr (refl, refl)
  find_entry-imaged w n i k (x ∷ c) (is, at, apart, rest) = elim (Bool-cases (K.equal k x.key)) [
    | inl t ↦ inl (x, rw (is, t), rw t, rw t)
    | inr f ↦ rw (is, f) (find_entry-imaged w n i k c rest)
  ]

  find_hit :
      (k : A) (h : FHash A) (e : FItem A)
      → IsValid K h
      → find_entry K k (h.buckets.cell (hash_key_to_val K h k)) ≡ some e
      → lookup K h k ≡ some e.value
      → hash_find K k h ≡ ok (some (e.key, e.value))
  unfolding hash_find
  find_hit k h e v run value = elim (Bool-cases (h.length == 0)) [
    | inl t ↦ cc (value, lookup_empty K h k v ((==_iff _ _).0 t))
    | inr f ↦ rw (f, load_bucket K h k v, run, hash_find)
  ]

  -- `hash_map` of a valid hash makes a valid hash with as many items. For a key that `hash_find` finds
  -- in the old hash, the new one has the value of the function for the key and the value found; for
  -- every other key neither hash has a value.
  pub hash_map-cases :
      (func : A → A → A) (h : FHash A)
      → Lawful K
      → IsValid K h
      → (h' : FHash A) × (hash_map K func h ≡ ok h')
        × IsValid K h'
        × (h'.length ≡ h.length)
        × ((k : A)
            → ((found : A) × (value : A) × (hash_find K k h ≡ ok (some (found, value)))
                × (lookup K h' k ≡ some (func found value)))
              ⊎ ((lookup K h k ≡ none) × (lookup K h' k ≡ none)))
  unfolding hash_map
  hash_map-cases func h L v =
      let (h', run, r) =
        rebuilt K (λ x. x) func h L (record { same = L.refl_of; keeps = λ k is. is }) v in
      (
        h',
        run,
        r.valid,
        r.counts,
        λ k.
            let i = hash_key_to_val K h k in
            elim (find_entry-imaged func h.hash_size i k (h.buckets.cell i)
              (v.good i (hash_key_to_val-lt K h k v))) [
                | inl (e, hit, value, new) ↦
                    inl (e.key, e.value, find_hit k h e v hit value, r.looks k ∙ new)
                | inr (missing, new) ↦ inr (missing, r.looks k ∙ new)
              ],
      )

  value_of-copied :
      (copy : A → A) (k : A) (c : List (FItem A))
      → Lawful K
      → Faithful K copy (λ _. copy)
      → value_of K k (imaged K copy (λ _. copy) c) ≡ Option.map copy (value_of K k c)
  value_of-copied copy k [] L F = refl
  value_of-copied copy k (x ∷ c) L F =
      rw
        (
          sym (equal-congr_right K L k x.key (copy x.key) (F.same x.key)),
          value_of-copied copy k c L F,
        )
        (map-if (K.equal k x.key) copy x.value (value_of K k c))

  -- `hash_copy` of a valid hash, where every key is equal to its copy, makes a valid hash with as many
  -- items that has, for each key, the copy of the value that the old hash has for it, if any.
  pub hash_copy-Copies :
      (copy : A → A) (h : FHash A)
      → Lawful K
      → Faithful K copy (λ _. copy)
      → IsValid K h
      → (h' : FHash A) × (hash_copy K copy h ≡ ok h')
        × IsValid K h'
        × (h'.length ≡ h.length)
        × ((k : A) → lookup K h' k ≡ Option.map copy (lookup K h k))
  unfolding hash_copy
  hash_copy-Copies copy h L F v = elim (Bool-cases (h.length == 0)) [
    | inl t ↦
        let fresh = make_hash-Empty K (pos h.hash_size) in
        let empty = (==_iff h.length 0).0 t in
        (
          make_hash (pos h.hash_size),
          rw (t, hash_copy),
          fresh.valid,
          fresh.no_length ∙ sym empty,
          λ k. fresh.none_there k ∙ ap (Option.map copy) (sym (lookup_empty K h k v empty)),
        )
    | inr f ↦
        let (h', run, r) = rebuilt K copy (λ _. copy) h L F v in
        (
          h',
          rw (f, hash_copy) run,
          r.valid,
          r.counts,
          λ k. r.looks k ∙ value_of-copied copy k (h.buckets.cell (hash_key_to_val K h k)) L F,
        )
  ]
