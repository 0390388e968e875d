-- ===== src/Cons/Front.antt =====
-- fth_cons and fth_car of src/array.c.
use fth.Base.{◌+◌, ◌/◌, ◌≤◌, ◌<◌, ◌≡◌, ◌⊎◌, List, [], ◌∷◌, Outcome, ok, throw, out_of_range, length}
use fth.Array.{FArray, view, max_seq_length, new_seq_length}
use fth.Array.Valid.{IsValid}
use fth.Cons.{Tail, nil, cons_of, atom}

module _ {ℓ} {A : Type ℓ} where
  -- the elements of the list that an argument stands for
  abbrev pub items : Tail A → List A
  items nil = []
  items (cons_of a) = view a
  items (atom x) = x ∷ []

  abbrev pub IsSound : Tail A → Type ℓ
  IsSound nil = Unit
  IsSound (cons_of a) = IsValid a
  IsSound (atom x) = Unit

  -- The call returns a valid list that holds `xs`, or raises OUT-OF-RANGE for the cause `C`.
  abbrev pub Lists {κ} : Outcome (FArray A) → List A → Type κ → Type (ℓ ⊔ κ)
  Lists r xs C =
      ((a : FArray A) × (r ≡ ok a) × IsValid a × (view a ≡ xs)) ⊎ ((r ≡ throw out_of_range) × C)

  -- No cell is left in front of the elements, and the buffer that is grown for one more and a third in
  -- front would be longer than the limit.
  abbrev pub IsFull : FArray A → Type 0
  IsFull a =
      (a.top ≤ 1)
      × (a.buf_length < a.buf_length / 3 + (a.length + 1))
      × (max_seq_length < new_seq_length (a.buf_length / 3 + (a.length + 1)))

  -- why `cons` may raise: nothing but a full list that it would have to grow
  abbrev pub CannotGrow : Tail A → Type 0
  CannotGrow nil = ⊥
  CannotGrow (cons_of a) = IsFull a
  CannotGrow (atom x) = ⊥
