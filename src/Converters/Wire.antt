-- ===== src/Converters/Wire.antt =====
-- The wire format of a frame, apart from how StructSerializer.cpp and StructDeserializer.cpp go
-- about it: sixteen bytes of header, then six bytes for each element, hits first, the highest byte
-- first.
use mathlib.Core.List.{append_assoc}
use srs_control.Base.Digits.{le_bytes, length-le_bytes}
use srs_control.Base.{
  ℕ, ◌*◌, ◌/◌, ◌^◌, ◌<◌, ◌≡◌, refl, ap, ◌∙◌, sym, List, [], ◌∷◌, ◌++◌, map, reverse, arith, length,
  length-append, length-reverse,
}
use srs_control.Converters.Elements.{
  element_of, hit_fields, marker_fields, hit_fields-FitsHitCompact, marker_fields-FitsMarkerCompact,
}
use srs_control.Converters.StructSerializer.{compact_to_vector, put_header}
use srs_control.Converters.Zpp.{Zpp}
use srs_control.Data.Compact.{hit_word, marker_word, hit_word-lt, marker_word-lt}
use srs_control.Data.Structs.{
  ReceiveDataHeader, MarkerData, HitData, StructData, FitsHit, FitsMarker,
}

abbrev pub hit_element : (padding : ℕ) → HitData → ℕ
hit_element padding h = element_of (hit_word padding (hit_fields h))

abbrev pub marker_element : (padding : ℕ) → MarkerData → ℕ
marker_element padding m = element_of (marker_word padding (marker_fields m))

abbrev pub elements : (padding : ℕ) → StructData → List ℕ
elements padding s =
    map (hit_element padding) s.hit_data ++ map (marker_element padding) s.marker_data

abbrev pub element_bytes : (element : ℕ) → List ℕ
element_bytes element = reverse (le_bytes 6 element)

abbrev pub body_bytes : (elements : List ℕ) → List ℕ
body_bytes [] = []
body_bytes (e ∷ es) = element_bytes e ++ body_bytes es

abbrev pub frame_bytes : Zpp → (padding : ℕ) → StructData → List ℕ
frame_bytes z padding s = put_header z padding s.header ++ body_bytes (elements padding s)

pub length-element_bytes : (e : ℕ) → length (element_bytes e) ≡ 6
length-element_bytes e = length-reverse (le_bytes 6 e) ∙ length-le_bytes 6 e

pub length-body_bytes : (es : List ℕ) → length (body_bytes es) ≡ 6 * length es
length-body_bytes [] = omega arith
length-body_bytes (e ∷ es) = omega (
  arith,
  length-append (element_bytes e) (body_bytes es),
  length-element_bytes e,
  length-body_bytes es,
)

pub body_bytes-append : (es fs : List ℕ) → body_bytes (es ++ fs) ≡ body_bytes es ++ body_bytes fs
body_bytes-append [] fs = refl
body_bytes-append (e ∷ es) fs =
    ap (◌++◌ (element_bytes e)) (body_bytes-append es fs)
    ∙ sym (append_assoc (element_bytes e) (body_bytes es) (body_bytes fs))

pub length-put_header : (z : Zpp) (p : ℕ) (h : ReceiveDataHeader) → length (put_header z p h) ≡ 16
unfolding put_header
length-put_header z p h = simp (length-append, z.length-put_uint)

-- The six bytes that the serializer makes of a word.
pub compact_to_vector_lem :
    (z : Zpp) (p w : ℕ) → compact_to_vector z p w ≡ element_bytes (element_of w)
unfolding compact_to_vector le_bytes
compact_to_vector_lem z p w = rw (z.put_bitset-eq 8 w) (ap element_bytes (upper w))
  where
    upper : (w : ℕ) → w / 256 / 256 ≡ w / 2 ^ 16
    upper w = omega arith

pub hit_element-lt : (p : ℕ) (h : HitData) → p < 2 ^ 16 → FitsHit h → hit_element p h < 2 ^ 48
hit_element-lt p h q f = omega (arith, hit_word-lt p _ q (hit_fields-FitsHitCompact h f))

pub marker_element-lt :
    (p : ℕ) (m : MarkerData) → p < 2 ^ 16 → FitsMarker m → marker_element p m < 2 ^ 48
marker_element-lt p m q f =
    omega (arith, marker_word-lt p _ q (marker_fields-FitsMarkerCompact m f))
