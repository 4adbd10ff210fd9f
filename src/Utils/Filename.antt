-- ===== src/Utils/Filename.antt =====
-- `insert_index_to_filename` of backend/srs/utils/CommonFunctions.hpp, with what it uses of
-- `std::filesystem::path`, for names of the POSIX form, and of `std::format` for an index.
use mathlib.Core.List.{append_cancel_left, append_cancel_right}
use srs_control.Base.{
  ℕ, zero, suc, ◌+◌, ◌-◌, ◌*◌, ◌/◌, ◌%◌, ◌<◌, ◌≡◌, refl, ap, ◌∙◌, sym, inl, inr, List, [], ◌∷◌,
  ◌++◌, Option, none, some, arith, ltb, drop, ◌==◌, if◌then◌else◌, Bool-cases,
}
use srs_control.Utils.Text.{eq_bytes}

-- The text before the last separator, and the text from there on.
unfoldable pub split_here :
    (sep x : ℕ) (xs : List ℕ) → Option (List ℕ × List ℕ) → Option (List ℕ × List ℕ)
split_here sep x xs (some (before, from)) = some (x ∷ before, from)
split_here sep x xs none = if x == sep then some ([], x ∷ xs) else none

unfoldable pub split_at_last : (sep : ℕ) → List ℕ → Option (List ℕ × List ℕ)
split_at_last sep [] = none
split_at_last sep (x ∷ xs) = split_here sep x xs (split_at_last sep xs)

-- A name without and with its extension: a dot at its begin starts none, nor does that of "..".
unfoldable pub parts_at : (name : List ℕ) → Option (List ℕ × List ℕ) → List ℕ × List ℕ
parts_at name none = (name, [])
parts_at name (some ([], from)) = (name, [])
parts_at name (some (x ∷ stem, extension)) = (x ∷ stem, extension)

unfoldable pub name_parts : List ℕ → List ℕ × List ℕ
name_parts name =
    if eq_bytes name (b'.' ∷ b'.' ∷ []) then (name, []) else parts_at name (split_at_last b'.' name)

-- `replace_extension()` and `extension` of a path.
unfoldable pub with_directory : List ℕ → Option (List ℕ × List ℕ) → List ℕ × List ℕ
with_directory path (some (directory, slash ∷ name)) =
    let (stem, extension) = name_parts name in (directory ++ slash ∷ stem, extension)
with_directory path (some (directory, [])) = name_parts path
with_directory path none = name_parts path

unfoldable pub path_parts : List ℕ → List ℕ × List ℕ
path_parts path = with_directory path (split_at_last b'/' path)

-- The digits of a number; the number is fuel enough.
unfoldable pub digits : (fuel n : ℕ) → List ℕ
digits zero n = []
digits (suc fuel) n =
    let rest = digits fuel (n / 10) in
    if ltb n 10 then (b'0' + n) ∷ [] else rest ++ (b'0' + n % 10) ∷ []

unfoldable pub decimal : ℕ → List ℕ
decimal n = digits (suc n) n

unfoldable pub insert_index_to_filename : (native_name : List ℕ) (idx : ℕ) → List ℕ
insert_index_to_filename native_name idx =
    let (file_basename, extension) = path_parts native_name in
    file_basename ++ b'_' ∷ (decimal idx ++ extension)

-- The number that digits stand for, which tells numbers apart.
value : (acc : ℕ) → List ℕ → ℕ
value acc [] = acc
value acc (d ∷ ds) = value (acc * 10 + (d - b'0')) ds

value-append : (acc d : ℕ) (ds : List ℕ) → value acc (ds ++ d ∷ []) ≡ value acc ds * 10 + (d - b'0')
unfolding value
value-append acc d [] = refl
value-append acc d (x ∷ ds) = value-append (acc * 10 + (x - b'0')) d ds

value-digits : (fuel n : ℕ) → n < fuel → value 0 (digits fuel n) ≡ n
unfolding value digits
value-digits zero n h = absurd (omega arith)
value-digits (suc fuel) n h = elim (Bool-cases (ltb n 10)) [
  | inl e ↦ rw e (omega arith)
  | inr e ↦
      rw (e, value-append 0 (b'0' + n % 10) (digits fuel (n / 10)))
        (ground (arith, value-digits fuel (n / 10) (ground arith)))
]

pub decimal-injective : (i j : ℕ) → decimal i ≡ decimal j → i ≡ j
unfolding decimal
decimal-injective i j e =
    sym (value-digits (suc i) i (omega arith))
    ∙ ap (value 0) e
    ∙ value-digits (suc j) j (omega arith)

-- The names for different indices differ.
pub insert_index_to_filename-injective :
    (name : List ℕ) (i j : ℕ)
    → insert_index_to_filename name i ≡ insert_index_to_filename name j
    → i ≡ j
unfolding insert_index_to_filename
insert_index_to_filename-injective name i j e =
    let (file_basename, extension) = path_parts name in
    let after_name =
      append_cancel_left file_basename (b'_' ∷ (decimal i ++ extension))
        (b'_' ∷ (decimal j ++ extension)) e in
    decimal-injective i j
      (append_cancel_right (decimal i) (decimal j) extension (ap (drop 1) after_name))
