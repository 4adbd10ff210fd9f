-- ===== src/Converters/DataConvertOptions.antt =====
-- backend/srs/converters/DataConvertOptions.hpp: which conversion needs which other one first. The
-- recursion of `convert_option_has_dependency` runs along the relations, which have no cycle; the
-- fuel of 7, one for each option, is more than the longest chain needs.
pub mod Reachable
use mathlib.Core.List.{Memᴰ}
use srs_control.Base.{
  ℕ, zero, suc, Bool, true, false, ◌&&◌, ◌||◌, List, [], ◌∷◌, arith, ◌==◌, ==_iff, if◌then◌else◌,
  Bool-cases, inl, inr, ◌⊎◌,
}

pub data DataConvertOptions : Type 0 where
  no_conversion raw raw_frame structure structure_to_proto proto proto_frame : DataConvertOptions

-- The value of the enumerator.
abbrev pub value_of : DataConvertOptions → ℕ
value_of no_conversion = 0
value_of raw = 1
value_of raw_frame = 2
value_of structure = 3
value_of structure_to_proto = 4
value_of proto = 5
value_of proto_frame = 6

abbrev pub same_option : DataConvertOptions → DataConvertOptions → Bool
same_option a b = value_of a == value_of b

pub record ConvertOptionRelation : Type 0 where
  pub dependee : DataConvertOptions
  pub depender : DataConvertOptions

abbrev pub relation : (option next_option : DataConvertOptions) → ConvertOptionRelation
relation option next_option = record { dependee = option; depender = next_option }

abbrev pub convert_option_relations : List ConvertOptionRelation
convert_option_relations =
    relation raw raw_frame
    ∷ relation raw structure
    ∷ relation structure structure_to_proto
    ∷ relation structure structure_to_proto
    ∷ relation structure_to_proto proto
    ∷ relation structure_to_proto proto_frame
    ∷ []

-- `std::ranges::any_of`.
abbrev pub any_of {ℓ} : {A : Type ℓ} → (A → Bool) → List A → Bool
any_of p [] = false
any_of p (x ∷ xs) = p x || any_of p xs

unfoldable pub has_dependency : (fuel : ℕ) (dependee depender : DataConvertOptions) → Bool
has_dependency zero dependee depender = same_option dependee depender
has_dependency (suc fuel) dependee depender =
    same_option dependee depender
    || any_of
        (λ (r : ConvertOptionRelation).
          same_option dependee r.dependee
          && (same_option depender r.depender || has_dependency fuel r.depender depender))
        convert_option_relations

unfoldable pub convert_option_has_dependency : (dependee depender : DataConvertOptions) → Bool
convert_option_has_dependency dependee depender = has_dependency 7 dependee depender

-- The relations as a graph, and a path along them.
pub data DependsOn : (dependee depender : DataConvertOptions) → Type 0 where
  itself : {option : DataConvertOptions} → DependsOn option option
  through :
      {dependee mid depender : DataConvertOptions}
      → Memᴰ (relation dependee mid) convert_option_relations
      → DependsOn mid depender
      → DependsOn dependee depender
