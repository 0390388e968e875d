-- ===== src/Array/Valid.antt =====
-- What every operation of src/array.c keeps: the run of elements lies inside the buffer, and
-- `data` points at its start.
use fth.Base.{
  ℕ, ◌+◌, ◌≤◌, ◌<◌, ◌≡◌, refl, sym, ap, ◌∙◌, ◌⊎◌, inl, inr, true, false, List, arith, ltb, ltb→lt,
  ltb_false→le, Bool-cases, ok, throw, out_of_range,
}
use mathlib.Core.Path.{subst}
use fth.Memory.{realloc}
use fth.Memory.Slice.{slice}
use fth.Memory.Writes.{slice-realloc}
use fth.Array.{FArray, Method, view, max_seq_length, new_seq_length, resize, reserve, shrink}

pub record IsValid {ℓ} {A : Type ℓ} (a : FArray A) : Type ℓ where
  pub sized : a.buf.size ≡ a.buf_length
  pub aimed : a.data_offset ≡ a.top
  pub fits : a.top + a.length ≤ a.buf_length

-- The call returns `b` and leaves a valid array that holds `xs`.
pub record Yields {ℓ κ} {A : Type ℓ} {B : Type κ} (r : Method A B) (b : B) (xs : List A)
    : Type (ℓ ⊔ κ) where
  pub returns : r.0 ≡ ok b
  pub valid : IsValid r.1
  pub holds : view r.1 ≡ xs

module _ {ℓ} {A : Type ℓ} where
  pub resize-IsValid :
      (fresh : ℕ → A) (len : ℕ) (a : FArray A)
      → a.top + a.length ≤ len
      → IsValid (resize fresh len a)
  unfolding resize realloc
  resize-IsValid fresh len a h = record { sized = refl; aimed = refl; fits = h }

  pub view-resize :
      (fresh : ℕ → A) (len : ℕ) (a : FArray A) → IsValid a → view (resize fresh len a) ≡ view a
  unfolding resize realloc
  view-resize fresh len a v =
      slice-realloc fresh a.buf len a.top a.length (omega arith)
      ∙ ap (λ k. slice a.buf.cell k a.length) (sym v.aimed)

  -- What `reserve` leaves: room for what was asked, and the same elements.
  pub record Reserved (a : FArray A) (needed : ℕ) (b : FArray A) : Type ℓ where
    pub valid : IsValid b
    pub room : needed ≤ b.buf_length
    pub same_top : b.top ≡ a.top
    pub same_length : b.length ≡ a.length
    pub same_view : view b ≡ view a

  pub reserve_enough :
      (fresh : ℕ → A) (needed : ℕ) (a : FArray A)
      → ltb a.buf_length needed ≡ false
      → reserve fresh needed a ≡ ok a
  unfolding reserve
  reserve_enough fresh needed a h = rw h

  reserve_long :
      (fresh : ℕ → A) (needed : ℕ) (a : FArray A)
      → ltb a.buf_length needed ≡ true
      → ltb max_seq_length (new_seq_length needed) ≡ true
      → reserve fresh needed a ≡ throw out_of_range
  unfolding reserve
  reserve_long fresh needed a h k = rw (h, k)

  reserve_good :
      (fresh : ℕ → A) (needed : ℕ) (a : FArray A)
      → ltb a.buf_length needed ≡ true
      → ltb max_seq_length (new_seq_length needed) ≡ false
      → reserve fresh needed a ≡ ok (resize fresh (new_seq_length needed) a)
  unfolding reserve
  reserve_good fresh needed a h k = rw (h, k)

  pub resize_fields :
      (fresh : ℕ → A) (len : ℕ) (a : FArray A)
      → ((resize fresh len a).top ≡ a.top)
        × ((resize fresh len a).length ≡ a.length)
        × ((resize fresh len a).buf_length ≡ len)
  unfolding resize realloc
  resize_fields fresh len a = (refl, refl, refl)

  -- `reserve` either makes room, or raises OUT-OF-RANGE where the buffer would pass its limit.
  pub reserve-Reserved :
      (fresh : ℕ → A) (needed : ℕ) (a : FArray A)
      → IsValid a
      → ((b : FArray A) × (reserve fresh needed a ≡ ok b) × Reserved a needed b)
        ⊎ ((reserve fresh needed a ≡ throw out_of_range)
            × (a.buf_length < needed)
            × (max_seq_length < new_seq_length needed))
  reserve-Reserved fresh needed a v = elim (Bool-cases (ltb a.buf_length needed)) [
    | inr enough ↦ inl (
      a,
      reserve_enough fresh needed a enough,
      record {
        valid = v;
        room = ltb_false→le _ _ enough;
        same_top = refl;
        same_length = refl;
        same_view = refl;
      },
    )
    | inl short ↦ elim (Bool-cases (ltb max_seq_length (new_seq_length needed))) [
      | inl long ↦ inr (reserve_long fresh needed a short long, ltb→lt _ _ short, ltb→lt _ _ long)
      | inr good ↦ inl (
        resize fresh (new_seq_length needed) a,
        reserve_good fresh needed a short good,
        record {
          valid = resize-IsValid fresh _ a (omega (arith, ltb→lt _ _ short));
          room = omega (arith, (resize_fields fresh (new_seq_length needed) a).2);
          same_top = (resize_fields fresh _ a).0;
          same_length = (resize_fields fresh _ a).1;
          same_view = view-resize fresh _ a v;
        },
      )
    ]
  ]

  -- What `shrink` leaves: the same run of cells, up to the one behind the last element.
  pub record Shrunk (a b : FArray A) : Type ℓ where
    pub valid : IsValid b
    pub slack : b.top + b.length < b.buf_length
    pub same_top : b.top ≡ a.top
    pub same_length : b.length ≡ a.length
    pub kept :
        (n : ℕ)
        → n ≤ a.length + 1
        → slice b.buf.cell b.data_offset n ≡ slice a.buf.cell a.data_offset n

  resize-Shrunk :
      (fresh : ℕ → A) (len : ℕ) (a : FArray A)
      → IsValid a
      → a.top + a.length < a.buf_length
      → a.top + a.length < len
      → Shrunk a (resize fresh len a)
  unfolding resize realloc
  resize-Shrunk fresh len a v lt more = record {
    valid = record { sized = refl; aimed = refl; fits = omega arith };
    slack = more;
    same_top = refl;
    same_length = refl;
    kept = λ n le.
        slice-realloc fresh a.buf len a.top n (omega arith)
        ∙ ap (λ k. slice a.buf.cell k n) (sym v.aimed);
  }

  shrink-by_test :
      (fresh : ℕ → A) (a : FArray A)
      → (ltb (new_seq_length (a.top + a.length)) a.buf_length ≡ true
          → shrink fresh a ≡ resize fresh (new_seq_length (a.top + a.length)) a)
        × (ltb (new_seq_length (a.top + a.length)) a.buf_length ≡ false → shrink fresh a ≡ a)
  unfolding shrink
  shrink-by_test fresh a = (λ h. rw h, λ h. rw h)

  pub shrink-Shrunk :
      (fresh : ℕ → A) (a : FArray A)
      → IsValid a
      → a.top + a.length < a.buf_length
      → Shrunk a (shrink fresh a)
  shrink-Shrunk fresh a v lt =
      elim (Bool-cases (ltb (new_seq_length (a.top + a.length)) a.buf_length)) [
        | inl smaller ↦
            subst (Shrunk a) (sym ((shrink-by_test fresh a).0 smaller))
              (resize-Shrunk fresh _ a v lt (omega arith))
        | inr same ↦ subst (Shrunk a) (sym ((shrink-by_test fresh a).1 same)) (record {
          valid = v;
          slack = lt;
          same_top = refl;
          same_length = refl;
          kept = λ n le. refl;
        })
      ]

-- The call raises OUT-OF-RANGE, leaves the array alone, and had cause: `needed` cells do not fit
-- the buffer, and a buffer for them would be too long.
abbrev pub Refuses {ℓ κ} : {A : Type ℓ} {B : Type κ} → Method A B → FArray A → ℕ → Type (ℓ ⊔ κ)
Refuses r a needed =
    (r ≡ (throw out_of_range, a))
    × (a.buf_length < needed)
    × (max_seq_length < new_seq_length needed)
