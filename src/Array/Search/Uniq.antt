-- ===== src/Array/Search/Uniq.antt =====
-- fth_array_uniq keeps the first of the elements that are equal.
use fth.Base.{
  ℕ, ◌<◌, ◌≡◌, refl, sym, ◌⊎◌, inl, inr, Bool, true, false, Bool-cases, List, [], ◌∷◌, ◌++◌, arith,
  if◌then◌else◌, ok, throw, out_of_range, map,
}
use mathlib.Core.Path.{subst}
use mathlib.Core.List.{append-nil, append_assoc}
use fth.Array.{FArray, view, max_seq_length}
use fth.Array.Valid.{IsValid, Yields}
use fth.Array.Ends.Push.{array_push-Added}
use fth.Array.Access.Make.{first_buf_length}
use fth.Array.Search.{array_member_p, ary_uniq_each, array_uniq}
use fth.Array.Search.Find.{NoneOf, scan-Search}
use fth.Array.Search.Keep.{into, Adds, rebuild-Yields, same_Added}

module _ {ℓ} {A : Type ℓ} where
  abbrev pub any_of : (A → Bool) → List A → Bool
  any_of test [] = false
  any_of test (x ∷ xs) = if test x then true else any_of test xs

  any_of-hit :
      (test : A → Bool) (ys : List A) (x : A) (zs : List A)
      → test x ≡ true
      → any_of test (ys ++ x ∷ zs) ≡ true
  any_of-hit test [] x zs t = rw t
  any_of-hit test (y ∷ ys) x zs t = ground (arith, any_of-hit test ys x zs t)

  any_of-NoneOf : (test : A → Bool) (xs : List A) → NoneOf test xs → any_of test xs ≡ false
  any_of-NoneOf test [] h = refl
  any_of-NoneOf test (x ∷ xs) (h, t) = rw h (any_of-NoneOf test xs t)

  NoneOf-any_of : (test : A → Bool) (xs : List A) → any_of test xs ≡ false → NoneOf test xs
  NoneOf-any_of test [] h = tt
  NoneOf-any_of test (x ∷ xs) h = (ground arith, NoneOf-any_of test xs (ground arith))

  -- `array_member_p` tells whether some element of a valid array is equal to the item.
  pub array_member_p-any_of :
      (equal : A → A → Bool) (item : A) (a : FArray A)
      → IsValid a
      → array_member_p equal item a ≡ ok (any_of (λ x. equal x item) (view a))
  unfolding array_member_p
  array_member_p-any_of equal item a v =
      let (o, run, found) = scan-Search (λ x. equal x item) a v in
      elim found [
        | inl (ys, x, zs, e, before, t, h) ↦
            rw (run, h, array_member_p, e, any_of-hit (λ x. equal x item) ys x zs t)
        | inr (nowhere, h) ↦
            rw (run, h, array_member_p, any_of-NoneOf (λ x. equal x item) (view a) nowhere)
      ]

  unfoldable pub add_new : (A → A → Bool) → A → List A → List A
  add_new equal x xs = if any_of (λ y. equal y x) xs then xs else xs ++ x ∷ []

  uniq-Adds :
      (equal : A → A → Bool) (fresh : ℕ → A) → Adds (ary_uniq_each equal fresh) (add_new equal)
  unfolding ary_uniq_each add_new
  uniq-Adds equal fresh = record {
    round = λ x a v room. elim (Bool-cases (any_of (λ y. equal y x) (view a))) [
      | inl t ↦ rw (array_member_p-any_of equal x a v, t, ary_uniq_each, add_new) (same_Added a v)
      | inr f ↦
          rw (array_member_p-any_of equal x a v, f, ary_uniq_each, add_new)
            (array_push-Added fresh x a v room)
    ];
  }

  -- No element of `xs` is equal to one of `seen` or to one before it.
  abbrev pub Distinct : (A → A → Bool) → List A → List A → Type 0
  Distinct equal seen [] = Unit
  Distinct equal seen (x ∷ xs) = NoneOf (λ y. equal y x) seen × Distinct equal (seen ++ x ∷ []) xs

  Distinct-snoc :
      (equal : A → A → Bool) (seen xs : List A) (x : A)
      → Distinct equal seen xs
      → NoneOf (λ y. equal y x) (seen ++ xs)
      → Distinct equal seen (xs ++ x ∷ [])
  Distinct-snoc equal seen [] x d h = (subst (NoneOf (λ y. equal y x)) (append-nil seen) h, tt)
  Distinct-snoc equal seen (y ∷ xs) x (n, d) h = (
    n,
    Distinct-snoc equal (seen ++ y ∷ []) xs x d
        (subst (NoneOf (λ w. equal w x)) (sym (append_assoc seen (y ∷ []) xs)) h),
  )

  add_new-Distinct :
      (equal : A → A → Bool) (x : A) (acc : List A)
      → Distinct equal [] acc
      → Distinct equal [] (add_new equal x acc)
  unfolding add_new
  add_new-Distinct equal x acc d = elim (Bool-cases (any_of (λ y. equal y x) acc)) [
    | inl t ↦ rw (t, add_new) d
    | inr f ↦
        rw (f, add_new) (Distinct-snoc equal [] acc x d (NoneOf-any_of (λ y. equal y x) acc f))
  ]

  into-Distinct :
      (equal : A → A → Bool) (acc xs : List A)
      → Distinct equal [] acc
      → Distinct equal [] (into (add_new equal) acc xs)
  unfolding into
  into-Distinct equal acc [] d = d
  into-Distinct equal acc (x ∷ xs) d =
      into-Distinct equal (add_new equal x acc) xs (add_new-Distinct equal x acc d)

  -- `array_uniq` of a valid array leaves the copies of its elements less each that is equal to one
  -- kept before it, so that no two of those left are equal; or it raises OUT-OF-RANGE where the
  -- buffer of a fresh copy would be too long, and leaves the array as it was.
  pub array_uniq-Yields :
      (z : A) (copy : A → A) (equal : A → A → Bool) (fresh : ℕ → A) (a : FArray A)
      → IsValid a
      → (Yields (array_uniq z copy equal fresh a) tt (into (add_new equal) [] (map copy (view a)))
          × Distinct equal [] (into (add_new equal) [] (map copy (view a))))
        ⊎ ((array_uniq z copy equal fresh a ≡ (throw out_of_range, a))
            × (max_seq_length < first_buf_length a.length))
  unfolding array_uniq
  array_uniq-Yields z copy equal fresh a v =
      elim (rebuild-Yields z copy (ary_uniq_each equal fresh) (add_new equal) a
        (uniq-Adds equal fresh) v) [
          | inl y ↦ inl (y, into-Distinct equal [] (map copy (view a)) tt)
          | inr r ↦ inr r
        ]
