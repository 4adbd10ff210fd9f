-- ===== src/Converters/Buffers.antt =====
-- StructSerializer.cpp: converting keeps the number of buffers, one for each line.
use srs_control.Base.Expected.{Expected}
use srs_control.Base.{ℕ, zero, suc, ◌≡◌, refl, ap, ◌∙◌, sym, List, [], ◌∷◌, ◌++◌, length, set}
use mathlib.Core.List.{flatten}
use srs_control.Converters.StructSerializer.{
  Error, StructSerializer, put_header, serialize_hits, serialize_markers, convert,
}
use srs_control.Converters.Wire.{element_bytes, hit_element, marker_element}
use srs_control.Converters.Written.{
  hits_bytes, serialize_hits_step, serialize_markers_step, serialize_hits_lem,
}
use srs_control.Converters.Zpp.{Zpp}
use srs_control.Data.Structs.{HitData, MarkerData, StructData, FitsHit, FitsMarker, All}

pub length-set {ℓ} : {A : Type ℓ} (xs : List A) (i : ℕ) (x : A) → length (set xs i x) ≡ length xs
length-set [] i x = refl
length-set (y ∷ xs) zero x = refl
length-set (y ∷ xs) (suc i) x = ap suc (length-set xs i x)

module _ (z : Zpp) (p line : ℕ) where
  length-serialize_hits :
      (hs : List HitData) (buffers : List (List ℕ)) (out : List ℕ)
      → All FitsHit hs
      → length (serialize_hits z p line buffers out hs).0 ≡ length buffers
  unfolding serialize_hits
  length-serialize_hits [] buffers out f = refl
  length-serialize_hits (h ∷ hs) buffers out f =
      let next = set buffers line (element_bytes (hit_element p h)) in
      ap (λ (r : List (List ℕ) × List ℕ × Expected Error (Unit {0})). length r.0)
        (serialize_hits_step z p line h hs buffers out f.0)
      ∙ length-serialize_hits hs next (out ++ flatten next) f.1
      ∙ length-set buffers line (element_bytes (hit_element p h))

  length-serialize_markers :
      (ms : List MarkerData) (buffers : List (List ℕ)) (out : List ℕ)
      → All FitsMarker ms
      → length (serialize_markers z p line buffers out ms).0 ≡ length buffers
  unfolding serialize_markers
  length-serialize_markers [] buffers out f = refl
  length-serialize_markers (m ∷ ms) buffers out f =
      let bytes = element_bytes (marker_element p m) in
      ap (λ (r : List (List ℕ) × List ℕ × Expected Error (Unit {0})). length r.0)
        (serialize_markers_step z p line m ms buffers out f.0)
      ∙ length-serialize_markers ms (set buffers line bytes) (out ++ bytes) f.1
      ∙ length-set buffers line bytes

  pub length-convert :
      (s : StructSerializer) (input : StructData)
      → All FitsHit input.hit_data
      → All FitsMarker input.marker_data
      → length (convert z p s input line).0.compact_data_buffer ≡ length s.compact_data_buffer
  unfolding convert
  length-convert s input f g =
      let out = put_header z p input.header in
      let cleared = set s.compact_data_buffer line [] in
      let (b, e) = serialize_hits_lem z p line input.hit_data cleared out f in
      rw e (
        length-serialize_markers input.marker_data b
          (out ++ hits_bytes z p line cleared input.hit_data) g
        ∙ sym (ap (λ (r : List (List ℕ) × List ℕ × Expected Error (Unit {0})). length r.0) e)
        ∙ length-serialize_hits input.hit_data cleared out f
        ∙ length-set s.compact_data_buffer line [])
