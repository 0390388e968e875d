-- ===== src/Strings/Make/Copy.antt =====
-- fth_string_copy goes through the C string, and so ends at the first NUL character.
use fth.Base.{◌≡◌, sym, ok, some}
use mathlib.Core.Path.{subst}
use fth.Strings.{FString, view}
use fth.Strings.Valid.{IsValid, IsText}
use fth.Strings.Libc.{string_data}
use fth.Strings.Libc.Text.{until_nul, until_nul-IsText, IsText-until_nul, c_string-view}
use fth.Strings.Make.{string_copy}
use fth.Strings.Make.Fresh.{Creates, make_string-Creates}

-- The copy of a valid string is a valid string of its characters up to the first NUL character; or
-- OUT-OF-RANGE is raised because these are more than the limit.
pub string_copy-Creates : (s : FString) → IsValid s → Creates (string_copy s) (until_nul (view s))
unfolding string_copy
string_copy-Creates s v =
    make_string-Creates (some (string_data s)) (until_nul (view s)) (c_string-view s v)

-- So the copy of a copy is one of the copy itself: nothing more is cut off.
pub string_copy-string_copy :
    (s c : FString)
    → IsValid s
    → string_copy s ≡ ok c
    → IsValid c
    → view c ≡ until_nul (view s)
    → Creates (string_copy c) (view c)
string_copy-string_copy s c v run w e =
    subst (Creates (string_copy c))
      (IsText-until_nul (view c) (subst IsText {y = view c} (sym e) (until_nul-IsText (view s))))
      (string_copy-Creates c w)
