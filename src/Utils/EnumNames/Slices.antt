-- ===== src/Utils/EnumNames/Slices.antt =====
-- backend/srs/utils/EnumConvertFunctions.hpp: the names with dashes, and back.
use mathlib.Core.List.{map-append, Memᴰ}
use srs_control.Base.{
  ℕ, ◌*◌, ◌≡◌, refl, sym, ap, ap₂, ◌∙◌, true, false, List, [], ◌∷◌, ◌++◌, map, length, length-map,
  take-append, drop-append, Option, none, some, All, total, length-append, ◌==◌, leb, arith,
  Bool-cases, inl, inr, if◌then◌else◌,
}
use srs_control.Utils.EnumNames.{
  enum_to_dash_converter, enum_from_dash_converter, Enumeration, join, copy_to_array, views,
  views_if, get_enum_dashed_names, get_enum_dashed_name, get_enum, dash_pairs, get_enum_dash_map,
  lookup,
}
use srs_control.Utils.Text.{eq_bytes, eq_bytes_refl, eq_bytes→eq}

map-join : (f : ℕ → ℕ) (names : List (List ℕ)) → map f (join names) ≡ join (map (map f) names)
unfolding join
map-join f [] = refl
map-join f (name ∷ names) =
    map-append f name (join names) ∙ ap (λ xs. map f name ++ xs) (map-join f names)

length-join : (names : List (List ℕ)) → length (join names) ≡ total length names
unfolding join
length-join [] = refl
length-join (name ∷ names) = length-append name (join names) ∙ rw (length-join names) refl

views-join :
    (f : ℕ → ℕ) (names : List (List ℕ)) → views (join (map (map f) names)) names ≡ map (map f) names
unfolding views join
views-join f [] = refl
views-join f (name ∷ names) =
    ap₂ ◌∷◌ (take-append (map f name) (join (map (map f) names)) (length name) (length-map name f))
      (ap (λ xs. views xs names)
          (drop-append (map f name) (join (map (map f) names)) (length name) (length-map name f))
        ∙ views-join f names)

-- Cutting the one array of all names into views gives every name with its underscores as dashes. It
-- compiles exactly if the names together have at most 20 characters for each name.
get_enum_dashed_names_lem :
    (names : List (List ℕ))
    → get_enum_dashed_names names ≡ (
        if leb (total length names) (20 * length names)
        then some (map (map enum_to_dash_converter) names)
        else none)
unfolding get_enum_dashed_names copy_to_array views_if
get_enum_dashed_names_lem names =
    let f = enum_to_dash_converter in
    elim (Bool-cases (leb (total length names) (20 * length names))) [
      | inl e ↦
          rw (length-map (join names) f, length-join names, e)
            (ap some (ap (λ xs. views xs names) (map-join f names) ∙ views-join f names))
      | inr e ↦ rw (length-map (join names) f, length-join names, e) refl
    ]

-- No character of a name is a dash.
abbrev pub HasNoDash : List ℕ → Type 0
HasNoDash = All (λ c. (c == b'-') ≡ false)

from_dash-to_dash :
    (name : List ℕ)
    → HasNoDash name
    → map enum_from_dash_converter (map enum_to_dash_converter name) ≡ name
unfolding enum_from_dash_converter enum_to_dash_converter
from_dash-to_dash [] h = refl
from_dash-to_dash (c ∷ name) (h, hs) = ap₂ ◌∷◌ (ground arith) (from_dash-to_dash name hs)

module _ (en : Enumeration) (no_dash : (v : en.Value) → HasNoDash (en.enum_name v)) where
  open en use {Value, enum_values, enum_name, enum_cast}

  -- The name with dashes of a value is read as this value.
  pub get_enum-get_enum_dashed_name : (v : Value) → get_enum en (get_enum_dashed_name en v) ≡ some v
  unfolding get_enum get_enum_dashed_name
  get_enum-get_enum_dashed_name v =
      ap enum_cast (from_dash-to_dash (enum_name v) (no_dash v)) ∙ en.enum_cast-enum_name v

  value_of : Value → Option Value → Value
  value_of d none = d
  value_of d (some v) = v

  same_name :
      (v w : Value)
      → eq_bytes (get_enum_dashed_name en v) (get_enum_dashed_name en w) ≡ true
      → v ≡ w
  unfolding value_of
  same_name v w e = ap (value_of v) (
      sym (get_enum-get_enum_dashed_name v)
      ∙ ap (get_enum en) (eq_bytes→eq (get_enum_dashed_name en v) (get_enum_dashed_name en w) e)
      ∙ get_enum-get_enum_dashed_name w)

  lookup-dash_pairs :
      (v : Value) (vs : List Value)
      → Memᴰ v vs
      → lookup en (dash_pairs en vs) (get_enum_dashed_name en v) ≡ some v
  unfolding lookup dash_pairs
  lookup-dash_pairs v [] m = elim m [ ]
  lookup-dash_pairs v (w ∷ vs) (Memᴰ.head e) =
      rw (e, eq_bytes_refl (get_enum_dashed_name en w)) refl
  lookup-dash_pairs v (w ∷ vs) (Memᴰ.tail m) =
      elim (Bool-cases (eq_bytes (get_enum_dashed_name en w) (get_enum_dashed_name en v))) [
        | inl e ↦ rw e (ap some (same_name w v e))
        | inr e ↦ rw e (lookup-dash_pairs v vs m)
      ]

  -- If no name of an enumeration has a dash, the name with dashes of each of its values is read as
  -- this value, by the cast and in the map of the names that the command line is given.
  pub lookup-get_enum_dash_map :
      (v : Value)
      → Memᴰ v enum_values
      → (lookup en (get_enum_dash_map en) (get_enum_dashed_name en v) ≡ some v)
        × (get_enum en (get_enum_dashed_name en v) ≡ some v)
  unfolding get_enum_dash_map
  lookup-get_enum_dash_map v m =
      (lookup-dash_pairs v enum_values m, get_enum-get_enum_dashed_name v)
