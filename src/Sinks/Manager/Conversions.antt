-- ===== src/Sinks/Manager/Conversions.antt =====
-- backend/srs/sinks/Manager.cpp: the map of the conversions that the sinks require.
use srs_control.Base.{
  ◌≡◌, refl, ap, Bool, true, false, ◌||◌, List, [], ◌∷◌, Option, none, some, map, arith, All,
  Bool-cases, inl, inr, if◌then◌else◌,
}
use srs_control.Converters.DataConvertOptions.{
  DataConvertOptions, no_conversion, raw, raw_frame, structure, structure_to_proto, proto,
  proto_frame, any_of, same_option,
}
use srs_control.Sinks.Manager.{
  Manager, is_convert_required, enum_values, assign, generate_conversion_req_map,
}

-- The entry of an option, the first one.
abbrev pub entry_of : DataConvertOptions → List (DataConvertOptions × Bool) → Option Bool
entry_of option [] = none
entry_of option ((k, b) ∷ rest) =
    let others = entry_of option rest in if same_option k option then some b else others

abbrev pub required_map : Manager → List (DataConvertOptions × Bool)
required_map m = map (λ conversion. (conversion, is_convert_required m conversion)) enum_values

left_false : (a b : Bool) → (a || b) ≡ false → a ≡ false
left_false true b e = e
left_false false b e = refl

right_false : (a b : Bool) → (a || b) ≡ false → b ≡ false
right_false true b e = absurd (ground arith)
right_false false b e = e

none_required :
    (m : Manager) (options : List DataConvertOptions)
    → any_of (is_convert_required m) options ≡ false
    → All (λ option. is_convert_required m option ≡ false) options
none_required m [] e = tt
none_required m (o ∷ options) e =
    let first = is_convert_required m o in
    let rest = any_of (is_convert_required m) options in
    (left_false first rest e, none_required m options (right_false first rest e))

entry-required :
    (m : Manager) (option : DataConvertOptions)
    → entry_of option (required_map m) ≡ some (is_convert_required m option)
entry-required m no_conversion = refl
entry-required m raw = refl
entry-required m raw_frame = refl
entry-required m structure = refl
entry-required m structure_to_proto = refl
entry-required m proto = refl
entry-required m proto_frame = refl

entry-assign :
    (m : Manager) (option : DataConvertOptions)
    → any_of (is_convert_required m) enum_values ≡ false
    → entry_of option (assign no_conversion true (required_map m))
      ≡ some (same_option option no_conversion)
unfolding assign
entry-assign m no_conversion e = refl
entry-assign m raw e = ap some (none_required m enum_values e).1.0
entry-assign m raw_frame e = ap some (none_required m enum_values e).1.1.0
entry-assign m structure e = ap some (none_required m enum_values e).1.1.1.0
entry-assign m structure_to_proto e = ap some (none_required m enum_values e).1.1.1.1.0
entry-assign m proto e = ap some (none_required m enum_values e).1.1.1.1.1.0
entry-assign m proto_frame e = ap some (none_required m enum_values e).1.1.1.1.1.1.0

-- The map has an entry for every option. It is set for those that a sink depends on, and if no sink
-- depends on any option, for `none` alone.
pub generate_conversion_req_map_lem :
    (m : Manager) (option : DataConvertOptions)
    → entry_of option (generate_conversion_req_map m)
      ≡ some (
          if any_of (is_convert_required m) enum_values
          then is_convert_required m option
          else same_option option no_conversion)
unfolding generate_conversion_req_map
generate_conversion_req_map_lem m option =
    elim (Bool-cases (any_of (is_convert_required m) enum_values)) [
      | inl e ↦ rw e (entry-required m option)
      | inr e ↦ rw e (entry-assign m option e)
    ]
