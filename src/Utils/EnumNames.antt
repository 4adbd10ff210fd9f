-- ===== src/Utils/EnumNames.antt =====
-- backend/srs/utils/EnumConvertFunctions.hpp: the names of an enumeration with dashes, as the command
-- line has them. The library magic_enum is a parameter. A text is the list of its characters, and
-- what is evaluated by the compiler either has a value or does not compile.
pub mod Slices
pub mod Tests
use srs_control.Base.{
  ℕ, ◌+◌, ◌*◌, ◌≡◌, Bool, true, false, List, [], ◌∷◌, ◌++◌, map, length, take, drop, Option, none,
  some, ◌==◌, leb, if◌then◌else◌,
}
use srs_control.Utils.Text.{eq_bytes}

unfoldable pub enum_to_dash_converter : ℕ → ℕ
enum_to_dash_converter char_val = if char_val == b'_' then b'-' else char_val

unfoldable pub enum_from_dash_converter : ℕ → ℕ
enum_from_dash_converter char_val = if char_val == b'-' then b'_' else char_val

-- What the library gives for an enumeration. A cast finds the value of a name.
pub record Enumeration : Type 1 where
  pub Value : Type 0
  pub enum_values : List Value
  pub enum_name : Value → List ℕ
  pub enum_cast : List ℕ → Option Value
  pub enum_cast-enum_name : (v : Value) → enum_cast (enum_name v) ≡ some v

unfoldable pub join : List (List ℕ) → List ℕ
join [] = []
join (name ∷ names) = name ++ join names

-- A copy into an array of so many elements.
unfoldable pub copy_to_array : (size : ℕ) → List ℕ → Option (List ℕ)
copy_to_array size xs = if leb (length xs) size then some xs else none

-- The views of the names, from the position that the last one ended at.
unfoldable pub views : (output_arr : List ℕ) → (enum_names : List (List ℕ)) → List (List ℕ)
views output_arr [] = []
views output_arr (enum_name ∷ enum_names) =
    let distance = length enum_name in
    take distance output_arr ∷ views (drop distance output_arr) enum_names

unfoldable pub views_if : Option (List ℕ) → (enum_names : List (List ℕ)) → Option (List (List ℕ))
views_if none enum_names = none
views_if (some output_arr) enum_names = some (views output_arr enum_names)

unfoldable pub get_enum_dashed_names : (enum_names : List (List ℕ)) → Option (List (List ℕ))
get_enum_dashed_names enum_names =
    let max_size = 20 * length enum_names in
    views_if (copy_to_array max_size (map enum_to_dash_converter (join enum_names))) enum_names

module _ (en : Enumeration) where
  open en use {Value, enum_values, enum_name, enum_cast}

  unfoldable pub get_enum_dashed_name : Value → List ℕ
  get_enum_dashed_name v = map enum_to_dash_converter (enum_name v)

  unfoldable pub get_enum : List ℕ → Option Value
  get_enum name = enum_cast (map enum_from_dash_converter name)

  unfoldable pub dash_pairs : List Value → List (List ℕ × Value)
  dash_pairs [] = []
  dash_pairs (v ∷ vs) = (get_enum_dashed_name v, v) ∷ dash_pairs vs

  unfoldable pub get_enum_dash_map : List (List ℕ × Value)
  get_enum_dash_map = dash_pairs enum_values

  -- The entry of a key: the first that was inserted is kept.
  unfoldable pub lookup : List (List ℕ × Value) → (key : List ℕ) → Option Value
  lookup [] key = none
  lookup ((k, v) ∷ entries) key = if eq_bytes k key then some v else lookup entries key
