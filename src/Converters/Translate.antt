-- ===== src/Converters/Translate.antt =====
-- StructDeserializer.cpp's `translate_raw_data` on any elements, and what StructSerializer.cpp makes of
-- its hits and markers.
use mathlib.Core.List.{append_assoc, append-nil}
use srs_control.Base.{
  ℕ, ◌+◌, ◌^◌, ◌<◌, ◌≡◌, refl, ap₂, ◌∙◌, inl, inr, List, [], ◌∷◌, ◌++◌, map, arith, All, length,
  if◌then◌else◌, Bool-cases,
}
use srs_control.Converters.Back.{
  array_to_hit-FitsHit, array_to_marker-FitsMarker, hit_element-array_to_hit,
  marker_element-array_to_marker,
}
use srs_control.Converters.StructDeserializer.{
  array_to_hit, array_to_marker, check_is_hit, add_element, translate_raw_data,
}
use srs_control.Converters.Wire.{hit_element, marker_element}
use srs_control.Data.Structs.{StructData, FitsHit, FitsMarker}

-- The elements of a frame that are hits, and the others, in their order.
abbrev pub hits_of : List ℕ → List ℕ
hits_of [] = []
hits_of (e ∷ es) = let others = hits_of es in if check_is_hit e then e ∷ others else others

abbrev pub markers_of : List ℕ → List ℕ
markers_of [] = []
markers_of (e ∷ es) = let others = markers_of es in if check_is_hit e then others else e ∷ others

pub translate_raw_data-eq :
    (es : List ℕ) (s : StructData)
    → translate_raw_data s es ≡ record s {
      marker_data = s.marker_data ++ map array_to_marker (markers_of es);
      hit_data = s.hit_data ++ map array_to_hit (hits_of es);
    }
unfolding translate_raw_data add_element
translate_raw_data-eq [] s = rw (append-nil s.marker_data, append-nil s.hit_data)
translate_raw_data-eq (e ∷ es) s = elim (Bool-cases (check_is_hit e)) [
  | inl c ↦
      let next : StructData = record s { hit_data = s.hit_data ++ array_to_hit e ∷ [] } in
      rw c (
        translate_raw_data-eq es next
        ∙ rw (append_assoc s.hit_data (array_to_hit e ∷ []) (map array_to_hit (hits_of es))))
  | inr c ↦
      let next : StructData = record s { marker_data = s.marker_data ++ array_to_marker e ∷ [] } in
      rw c (
        translate_raw_data-eq es next
        ∙ rw (
            append_assoc s.marker_data (array_to_marker e ∷ [])
              (map array_to_marker (markers_of es))))
]

pub hits-FitsHit :
    (es : List ℕ) → All (λ e. e < 2 ^ 48) es → All FitsHit (map array_to_hit (hits_of es))
hits-FitsHit [] lt = tt
hits-FitsHit (e ∷ es) lt = elim (Bool-cases (check_is_hit e)) [
  | inl c ↦ rw c (array_to_hit-FitsHit e lt.0, hits-FitsHit es lt.1)
  | inr c ↦ rw c (hits-FitsHit es lt.1)
]

pub markers-FitsMarker :
    (es : List ℕ) → All (λ e. e < 2 ^ 48) es → All FitsMarker (map array_to_marker (markers_of es))
markers-FitsMarker [] lt = tt
markers-FitsMarker (e ∷ es) lt = elim (Bool-cases (check_is_hit e)) [
  | inl c ↦ rw c (markers-FitsMarker es lt.1)
  | inr c ↦ rw c (array_to_marker-FitsMarker e lt.0, markers-FitsMarker es lt.1)
]

pub length-hits-markers : (es : List ℕ) → length (hits_of es) + length (markers_of es) ≡ length es
length-hits-markers [] = omega arith
length-hits-markers (e ∷ es) = ground (arith, length-hits-markers es)

module _ (p : ℕ) (q : p < 2 ^ 16) where
  pub elements-hits :
      (es : List ℕ)
      → All (λ e. e < 2 ^ 48) es
      → map (hit_element p) (map array_to_hit (hits_of es)) ≡ hits_of es
  elements-hits [] lt = refl
  elements-hits (e ∷ es) lt = elim (Bool-cases (check_is_hit e)) [
    | inl c ↦ rw c (ap₂ ◌∷◌ (hit_element-array_to_hit p e q lt.0 c) (elements-hits es lt.1))
    | inr c ↦ rw c (elements-hits es lt.1)
  ]

  pub elements-markers :
      (es : List ℕ)
      → All (λ e. e < 2 ^ 48) es
      → map (marker_element p) (map array_to_marker (markers_of es)) ≡ markers_of es
  elements-markers [] lt = refl
  elements-markers (e ∷ es) lt = elim (Bool-cases (check_is_hit e)) [
    | inl c ↦ rw c (elements-markers es lt.1)
    | inr c ↦
        rw c (ap₂ ◌∷◌ (marker_element-array_to_marker p e q lt.0 c) (elements-markers es lt.1))
  ]
