-- ===== src/Tests/Strings.antt =====
-- Strings to run the model of src/string.c on, and runs of it.
use fth.Base.{
  ℕ, ◌+◌, ◌-◌, ◌<◌, ◌≡◌, ◌≢◌, ◌↔◌, refl, ◌⊎◌, inl, Bool, true, false, [], ◌∷◌, ◌++◌, length, take,
  drop, ℤ, pos, negsuc, some, ok, throw, out_of_range, arith,
}
use fth.Memory.{update}
use fth.Array.{max_seq_length}
use fth.Array.Access.Index.{position}
use fth.Strings.{FString, view}
use fth.Strings.Valid.{IsValid, IsBounded, IsText, IsText-slice, Yields, Refuses}
use fth.Strings.Ends.{another, itself, string_push, string_pop, string_unshift, string_shift}
use fth.Strings.Ends.Push.{string_push-Yields}
use fth.Strings.Ends.Unshift.{string_unshift-Yields, unshift_needs}
use fth.Strings.Ends.Shift.{string_shift-drops_first, string_shift-unended}
use fth.Strings.Edit.{string_insert, string_delete}
use fth.Strings.Edit.Insert.{string_insert-Yields}
use fth.Strings.Edit.Delete.{string_delete-Yields}
use fth.Strings.Libc.Order.{Precedes}
use fth.Strings.Make.{string_substring, string_copy}
use fth.Strings.Make.Fresh.{Creates}
use fth.Strings.Make.Substring.{EndsAt, string_substring-Creates}
use fth.Strings.Compare.{string_equal_p, string_less_p, string_greater_p, string_index}
use fth.Strings.Compare.Equal.{IsReadable, string_compare-view}
use fth.Strings.Compare.Find.{string_index-Located, Located}
use fth.Strings.Chars.{character, string_char_set, string_chomp}
use fth.Strings.Chars.Access.{string_char_set-Stores, Stores}
use fth.Strings.Chars.Chomp.{string_chomp-Yields, chomped}
use fth.Strings.Rounds.{string_pop-string_push, string_equal_p-string_copy}

-- a string of `len` characters from `top` on, in a buffer of 256 bytes whose bytes are their own
-- indices, up to the NUL byte behind it
abbrev counted_text : ℕ → ℕ → FString
counted_text top len = record {
  length = len;
  buf_length = 256;
  top = top;
  data_offset = top;
  buf = record { size = 256; cell = update (λ i. i) (top + len) 0 };
  changed_p = false;
}

-- "*+,", "*" and "A", and the characters from `counted` in the second half of the buffer
abbrev three_chars : FString
three_chars = counted_text 42 3

abbrev one_char : FString
one_char = counted_text 42 1

abbrev late_text : FString
late_text = counted_text 130 60

three_chars-IsValid : IsValid three_chars
three_chars-IsValid = record {
  bounded = record {
    sized = refl;
    aimed = refl;
    fits = omega arith;
    clear = omega arith;
    wide = omega arith;
  };
  ended = refl;
}

one_char-IsValid : IsValid one_char
one_char-IsValid = record {
  bounded = record {
    sized = refl;
    aimed = refl;
    fits = omega arith;
    clear = omega arith;
    wide = omega arith;
  };
  ended = refl;
}

late_text-IsValid : IsValid late_text
late_text-IsValid = record {
  bounded = record {
    sized = refl;
    aimed = refl;
    fits = omega arith;
    clear = omega arith;
    wide = omega arith;
  };
  ended = refl;
}

three_chars-IsReadable : IsReadable three_chars
three_chars-IsReadable = record {
  valid = three_chars-IsValid;
  text = ((λ e. omega (arith, e)), ((λ e. omega (arith, e)), ((λ e. omega (arith, e)), tt)));
}

one_char-IsReadable : IsReadable one_char
one_char-IsReadable = record { valid = one_char-IsValid; text = ((λ e. omega (arith, e)), tt) }

string_push-Yields_example :
    Yields (string_push (λ _. 7) itself three_chars) tt (view three_chars ++ view three_chars)
    ⊎ Refuses (string_push (λ _. 7) itself three_chars) three_chars (42 + 3 + 3 + 1)
string_push-Yields_example = string_push-Yields (λ _. 7) itself three_chars tt three_chars-IsValid

string_unshift-Yields_example :
    Yields (string_unshift (λ _. 7) itself late_text) tt (view late_text ++ view late_text)
    ⊎ Refuses (string_unshift (λ _. 7) itself late_text) late_text (unshift_needs itself late_text)
string_unshift-Yields_example =
    string_unshift-Yields (λ _. 7) itself late_text tt late_text-IsValid (inl (omega arith))

string_shift-drops_first_example :
    ((string_shift (λ _. 7) three_chars).0 ≡ ok (some 42))
    × IsBounded (string_shift (λ _. 7) three_chars).1
    × (view (string_shift (λ _. 7) three_chars).1 ≡ 43 ∷ 44 ∷ [])
string_shift-drops_first_example =
    string_shift-drops_first (λ _. 7) three_chars 42 (43 ∷ 44 ∷ []) three_chars-IsValid.bounded refl

string_insert-Yields_example :
    Yields
      (string_insert (λ _. 7) (negsuc 0) (another one_char) three_chars)
      tt
      ((42 ∷ 43 ∷ []) ++ (view one_char ++ 44 ∷ []))
    ⊎ Refuses
        (string_insert (λ _. 7) (negsuc 0) (another one_char) three_chars)
        three_chars
        (42 + (3 + 1 + 1))
string_insert-Yields_example =
    string_insert-Yields (λ _. 7) (negsuc 0) (another one_char) three_chars 42 (43 ∷ []) (44 ∷ [])
      one_char-IsValid three_chars-IsValid refl refl

string_delete-Yields_example :
    Yields (string_delete (λ _. 7) (pos 1) three_chars) (some 43) ((42 ∷ []) ++ 44 ∷ [])
string_delete-Yields_example =
    string_delete-Yields (λ _. 7) (pos 1) three_chars 42 [] (44 ∷ []) 43 three_chars-IsValid refl
      refl

string_compare-view_example :
    ((b : Bool) × (string_equal_p (some one_char) (some three_chars) ≡ ok b)
      × ((b ≡ true) ↔ (view one_char ≡ view three_chars)))
    × ((b : Bool) × (string_less_p (some one_char) (some three_chars) ≡ ok b)
        × ((b ≡ true) ↔ Precedes (view one_char) (view three_chars)))
    × ((b : Bool) × (string_greater_p (some one_char) (some three_chars) ≡ ok b)
        × ((b ≡ true) ↔ Precedes (view three_chars) (view one_char)))
string_compare-view_example =
    string_compare-view one_char three_chars one_char-IsReadable three_chars-IsReadable

string_index-Located_example :
    (z : ℤ) × (string_index three_chars one_char ≡ ok z)
    × Located (view one_char) (view three_chars) z
string_index-Located_example =
    string_index-Located three_chars one_char three_chars-IsReadable one_char-IsReadable

-- "+" of "*+,", from the last but one to before the last
string_substring-Creates_example :
    (n : ℕ) × EndsAt (negsuc 0) 1 3 n
    × Creates
        (string_substring (negsuc 1) (negsuc 0) three_chars)
        (take (n - 1) (drop 1 (view three_chars)))
string_substring-Creates_example =
    string_substring-Creates (negsuc 1) (negsuc 0) 1 three_chars three_chars-IsValid
      three_chars-IsReadable.text refl

string_char_set-Stores_example :
    Stores
      (string_char_set (negsuc 0) (character 65) three_chars)
      three_chars
      (position (negsuc 0) 3)
      (character 65)
string_char_set-Stores_example =
    string_char_set-Stores (negsuc 0) (character 65) three_chars three_chars-IsValid

string_chomp-Yields_example :
    Yields (string_chomp (λ _. 7) (counted_text 10 1)) tt (chomped (10 ∷ []))
string_chomp-Yields_example =
    string_chomp-Yields (λ _. 7) (counted_text 10 1)
      (record {
        bounded = record {
          sized = refl;
          aimed = refl;
          fits = omega arith;
          clear = omega arith;
          wide = omega arith;
        };
        ended = refl;
      })

string_pop-string_push_example :
    Yields
      (string_pop (λ _. 8) (string_push (λ _. 7) (another one_char) three_chars).1)
      (some 42)
      (view three_chars)
    ⊎ Refuses (string_push (λ _. 7) (another one_char) three_chars) three_chars (42 + 3 + 1 + 1)
string_pop-string_push_example =
    string_pop-string_push (λ _. 7) (λ _. 8) one_char three_chars 42 one_char-IsValid refl
      three_chars-IsValid

string_equal_p-string_copy_example :
    ((c : FString) × (string_copy three_chars ≡ ok c)
      × IsValid c
      × (view c ≡ view three_chars)
      × (string_equal_p (some three_chars) (some c) ≡ ok true))
    ⊎ ((string_copy three_chars ≡ throw out_of_range)
        × (max_seq_length < length (view three_chars)))
string_equal_p-string_copy_example = string_equal_p-string_copy three_chars three_chars-IsReadable

-- a string in the last half of its buffer whose characters move by fewer places than there are
abbrev moving_text : FString
moving_text = counted_text 128 60

moving_text-IsValid : IsValid moving_text
moving_text-IsValid = record {
  bounded = record {
    sized = refl;
    aimed = refl;
    fits = omega arith;
    clear = omega arith;
    wide = omega arith;
  };
  ended = refl;
}

moving_text-IsText : IsText (view moving_text)
moving_text-IsText = IsText-slice moving_text.buf.cell 128 60 (λ k lt. not_nul k lt)
  where
    not_nul : (k : ℕ) → k < 60 → moving_text.buf.cell (128 + k) ≢ 0
    not_nul k lt = ground arith

string_shift-unended_example :
    (string_shift (λ _. 7) moving_text).1.buf.cell (
      (string_shift (λ _. 7) moving_text).1.data_offset
      + (string_shift (λ _. 7) moving_text).1.length)
    ≢ 0
string_shift-unended_example =
    string_shift-unended (λ _. 7) moving_text 128 (view (counted_text 129 59)) moving_text-IsValid
      moving_text-IsText refl (omega arith) (omega arith)
