-- ===== src/Cons/Rest.antt =====
-- fth_cdr and fth_cddr of src/array.c.
use fth.Base.{
  ℕ, ◌+◌, ◌-◌, ◌<◌, ◌≤◌, ◌≡◌, sym, ap, ◌∙◌, ◌⊎◌, inl, inr, true, false, ltb, ltb→lt, lt→ltb,
  ltb_false→le, Bool-cases, Option, none, some, Outcome, ok, throw, fault, ◌>>=◌, out_of_range,
  arith, pos, negsuc, take, drop,
}
use mathlib.Core.Path.{subst}
use fth.Memory.Slice.{take-slice, drop-slice}
use fth.Array.{FArray, view, max_seq_length}
use fth.Array.Valid.{IsValid}
use fth.Array.Access.Make.{first_buf_length}
use fth.Array.Access.Index.{position}
use fth.Array.Copy.{array_subarray}
use fth.Array.Copy.Subarray.{Overruns, Stays, Allots, EndsAt, Copied, array_subarray-cases}
use fth.Cons.{cons_of, list_length, cdr_at}

-- The end -1 means the whole rest.
end_all : (idx len e : ℕ) → EndsAt (negsuc 0) idx len e → e ≡ len
end_all idx len e h = omega (arith, h)

module _ {ℓ} {A : Type ℓ} (z : A) where
  cdr_short :
      (idx : ℕ) (a : FArray A) → ltb idx a.length ≡ false → cdr_at z idx (cons_of a) ≡ ok none
  unfolding cdr_at list_length
  cdr_short idx a f = rw (f, cdr_at)

  cdr_long :
      (idx : ℕ) (a : FArray A)
      → ltb idx a.length ≡ true
      → cdr_at z idx (cons_of a) ≡ (
          array_subarray z (pos idx) (negsuc 0) a
          >>= (λ ls. ok (some (record ls { is_list = true }))))
  unfolding cdr_at list_length
  cdr_long idx a t = rw (t, cdr_at)

  rest_view :
      (idx : ℕ) (a : FArray A)
      → idx < a.length
      → take (a.length - idx) (drop idx (view a)) ≡ drop idx (view a)
  rest_view idx a lt =
      ap (take (a.length - idx)) (drop-slice a.buf.cell a.data_offset idx a.length (omega arith))
      ∙ take-slice a.buf.cell (a.data_offset + idx) (a.length - idx) (a.length - idx) (omega arith)
      ∙ sym (drop-slice a.buf.cell a.data_offset idx a.length (omega arith))

  -- `cdr` of a valid list, for the index 1, and `cddr`, for 2, give nil where the list is not longer than
  -- the index. Else they raise OUT-OF-RANGE where the buffer of the rest would be longer than the limit;
  -- where it would not, they are undefined if the move of fth_array_subarray, of as many cells as the
  -- whole list has, passes the end of a buffer, and if it does not they give a valid list of the elements
  -- from the index on.
  pub cdr_at-cases :
      (idx : ℕ) (a : FArray A)
      → IsValid a
      → ((a.length ≤ idx) × (cdr_at z idx (cons_of a) ≡ ok none))
        ⊎ ((idx < a.length)
            × Allots (a.length - idx)
            × Stays a idx (a.length - idx)
            × (r : FArray A) × (cdr_at z idx (cons_of a) ≡ ok (some r))
            × IsValid r
            × (view r ≡ drop idx (view a)))
        ⊎ ((idx < a.length)
            × Allots (a.length - idx)
            × Overruns a idx (a.length - idx)
            × (cdr_at z idx (cons_of a) ≡ fault))
        ⊎ ((idx < a.length)
            × (cdr_at z idx (cons_of a) ≡ throw out_of_range)
            × (max_seq_length < first_buf_length (a.length - idx)))
  cdr_at-cases idx a v = elim (Bool-cases (ltb idx a.length)) [
    | inr f ↦ inl (ltb_false→le _ _ f, cdr_short idx a f)
    | inl t ↦
        let lt = ltb→lt idx a.length t in
        let wrap : Outcome (FArray A) → Outcome (Option (FArray A)) =
          λ o. o >>= (λ ls. ok (some (record ls { is_list = true }))) in
        let (e, ends, copied) =
          array_subarray-cases z (pos idx) (negsuc 0) a idx v (position_in idx a.length lt) in
        inr
          (elim (subst (λ e'. Copied z (array_subarray z (pos idx) (negsuc 0) a) a idx (e' - idx))
            (end_all idx a.length e ends) copied) [
              | inl (short, stays, r, run, w, holds) ↦ inl (
                lt,
                short,
                stays,
                record r { is_list = true },
                cdr_long idx a t ∙ ap wrap run,
                record { sized = w.sized; aimed = w.aimed; fits = w.fits },
                holds ∙ rest_view idx a lt,
              )
              | inr (inl (short, over, run)) ↦
                  inr (inl (lt, short, over, cdr_long idx a t ∙ ap wrap run))
              | inr (inr (run, long)) ↦ inr (inr (lt, cdr_long idx a t ∙ ap wrap run, long))
            ])
  ]
    where
      position_in : (i len : ℕ) → i < len → position (pos i) len ≡ some i
      position_in i len lt = ground (arith, lt→ltb i len lt)
