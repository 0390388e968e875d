-- ===== src/Array/Access/Fresh.antt =====
-- The fields of the array that fth_make_array_len gives.
use fth.Base.{
  ℕ, ◌/◌, ◌<◌, ◌≡◌, refl, ◌⊎◌, inl, inr, true, false, ◌≤◌, ltb, ltb→lt, ltb_false→le, Bool-cases,
  pos, ok, throw, out_of_range,
}
use fth.Memory.{calloc}
use fth.Array.{FArray, max_seq_length, new_seq_length, make_array, make_array_instance}
use fth.Array.Access.{make_array_len}
use fth.Array.Access.Make.{first_buf_length}

module _ {ℓ} {A : Type ℓ} (z : A) where
  -- the array that `make_array_len` gives
  pub record Fresh (n : ℕ) (r : FArray A) : Type ℓ where
    pub sized : r.buf.size ≡ first_buf_length n
    pub buf_length : r.buf_length ≡ first_buf_length n
    pub top : r.top ≡ new_seq_length n / 3
    pub aimed : r.data_offset ≡ new_seq_length n / 3
    pub len : r.length ≡ n
    pub short : first_buf_length n ≤ max_seq_length

  pub make_array_len-Fresh :
      (n : ℕ)
      → ((r : FArray A) × (make_array_len z (pos n) ≡ ok r) × Fresh n r)
        ⊎ ((make_array_len z (pos n) ≡ throw out_of_range) × (max_seq_length < first_buf_length n))
  unfolding make_array_len make_array make_array_instance calloc
  make_array_len-Fresh n = elim (Bool-cases (ltb max_seq_length (first_buf_length n))) [
    | inl long ↦ inr (rw (long, make_array_len), ltb→lt _ _ long)
    | inr fits ↦ inl (
      record {
        is_array = true;
        is_list = false;
        is_assoc = false;
        length = n;
        buf_length = first_buf_length n;
        top = new_seq_length n / 3;
        data_offset = new_seq_length n / 3;
        buf = record { size = first_buf_length n; cell = λ _. z };
        changed_p = true;
      },
      rw (fits, make_array_len),
      record {
        sized = refl;
        buf_length = refl;
        top = refl;
        aimed = refl;
        len = refl;
        short = ltb_false→le _ _ fits;
      },
    )
  ]
