-- ===== src/Utils/EnumNames/Tests.antt =====
-- Runs of backend/srs/utils/EnumConvertFunctions.hpp, with the names of `ActionMode`.
use mathlib.Core.List.{Memᴰ}
use srs_control.Base.{ℕ, ◌≡◌, refl, List, [], ◌∷◌, Option, none, some, if◌then◌else◌}
use srs_control.Utils.EnumNames.{
  Enumeration, get_enum_dash_map, get_enum_dashed_name, get_enum, lookup,
}
use srs_control.Utils.EnumNames.Slices.{HasNoDash, lookup-get_enum_dash_map}
use srs_control.Utils.Text.{eq_bytes}

data Mode : Type 0 where
  acq_on acq_off : Mode

abbrev name_of : Mode → List ℕ
name_of acq_on = b'a' ∷ b'_' ∷ b'n' ∷ []
name_of acq_off = b'a' ∷ b'_' ∷ b'f' ∷ []

abbrev cast : List ℕ → Option Mode
cast name =
    if eq_bytes name (name_of acq_on)
    then some acq_on
    else (if eq_bytes name (name_of acq_off) then some acq_off else none)

cast-name_of : (m : Mode) → cast (name_of m) ≡ some m
unfolding eq_bytes
cast-name_of acq_on = refl
cast-name_of acq_off = refl

abbrev modes : Enumeration
modes = record {
  Value = Mode;
  enum_values = acq_on ∷ acq_off ∷ [];
  enum_name = name_of;
  enum_cast = cast;
  enum_cast-enum_name = cast-name_of;
}

no_dash : (m : Mode) → HasNoDash (name_of m)
no_dash acq_on = (refl, (refl, (refl, tt)))
no_dash acq_off = (refl, (refl, (refl, tt)))

lookup-get_enum_dash_map_example :
    (lookup modes (get_enum_dash_map modes) (get_enum_dashed_name modes acq_off) ≡ some acq_off)
    × (get_enum modes (get_enum_dashed_name modes acq_off) ≡ some acq_off)
lookup-get_enum_dash_map_example =
    lookup-get_enum_dash_map modes no_dash acq_off (Memᴰ.tail (Memᴰ.head refl))
