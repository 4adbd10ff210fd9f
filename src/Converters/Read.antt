-- ===== src/Converters/Read.antt =====
-- What StructDeserializer.cpp reads: the header and the elements of a frame in the wire format, and
-- which inputs it refuses.
use mathlib.Core.List.{append_assoc, append-nil}
use srs_control.Base.Digits.{le_bytes, le_bytes-AreBytes, reverse-AreBytes}
use srs_control.Base.Expected.{value}
use srs_control.Base.{
  ℕ, ◌^◌, ◌<◌, ◌≡◌, refl, ap, ap₂, ◌∙◌, sym, List, [], ◌∷◌, ◌++◌, map, some, length,
}
use srs_control.Converters.Elements.{
  array_to_hit-hit_word, array_to_marker-marker_word, check_is_hit-hit_word,
  check_is_hit-marker_word, hit_fields, marker_fields, hit_fields-FitsHitCompact,
  marker_fields-FitsMarkerCompact,
}
use srs_control.Converters.StructDeserializer.{
  add_element, translate_raw_data, byte_reverse_data_sq, get_header, get_elements, get_frame,
  read_frame,
}
use srs_control.Converters.StructSerializer.{put_header}
use srs_control.Converters.Wire.{
  hit_element, marker_element, elements, element_bytes, body_bytes, hit_element-lt,
  marker_element-lt, length-element_bytes,
}
use srs_control.Converters.Zpp.{Zpp}
use srs_control.Data.Structs.{
  ReceiveDataHeader, MarkerData, HitData, StructData, IsHeader, FitsHit, FitsMarker, All,
  empty_struct,
}
use srs_control.Utils.ByteSwap.{byte_swap, byte_swap-eq, byte_swap_twice}

-- A header is read back, and what follows it is left.
pub get_header-put_header :
    (z : Zpp) (p : ℕ) (h : ReceiveDataHeader) (rest : List ℕ)
    → IsHeader h
    → get_header z (put_header z p h ++ rest) ≡ some (h, rest)
unfolding get_header put_header
get_header-put_header z p h rest v = simp append_assoc (
    rw (
      z.get_uint-put_uint 4 h.frame_counter _ v.frame_counter,
      z.get_uint-put_uint 1 h.vmm_tag.0 _ v.vmm_tag.0,
      z.get_uint-put_uint 1 h.vmm_tag.1 _ v.vmm_tag.1,
      z.get_uint-put_uint 1 h.vmm_tag.2 _ v.vmm_tag.2,
      z.get_uint-put_uint 1 h.fec_id _ v.fec_id,
      z.get_uint-put_uint 4 h.udp_timestamp _ v.udp_timestamp,
      z.get_uint-put_uint 4 h.overflow _ v.overflow,
    ))

abbrev swapped : List ℕ → List ℕ
swapped = map (byte_swap 48)

-- Elements are read with their bytes in the wrong order.
pub get_elements-body_bytes :
    (z : Zpp) (es : List ℕ)
    → All (λ e. e < 2 ^ 48) es
    → get_elements z (length es) (body_bytes es) ≡ some (swapped es)
unfolding get_elements
get_elements-body_bytes z [] f = refl
get_elements-body_bytes z (e ∷ es) f =
    rw
      (
        z.get_bitset-eq 6 (element_bytes e) (body_bytes es) (length-element_bytes e)
            (reverse-AreBytes (le_bytes 6 e) (le_bytes-AreBytes 6 e)),
        get_elements-body_bytes z es f.1,
      )
      (ap (λ x. some (x ∷ swapped es)) (sym (byte_swap-eq e f.0)))

pub byte_reverse-swapped :
    (es : List ℕ) → All (λ e. e < 2 ^ 48) es → byte_reverse_data_sq (swapped es) ≡ es
unfolding byte_reverse_data_sq
byte_reverse-swapped [] f = refl
byte_reverse-swapped (e ∷ es) f = ap₂ ◌∷◌ (byte_swap_twice e f.0) (byte_reverse-swapped es f.1)

module _ (p : ℕ) (q : p < 2 ^ 16) where
  add_element-marker :
      (m : MarkerData) (s : StructData)
      → FitsMarker m
      → add_element s (marker_element p m) ≡ record s { marker_data = s.marker_data ++ m ∷ [] }
  unfolding add_element
  add_element-marker m s f = rw (
    check_is_hit-marker_word p (marker_fields m) q (marker_fields-FitsMarkerCompact m f),
    array_to_marker-marker_word p m q f,
  )

  add_element-hit :
      (h : HitData) (s : StructData)
      → FitsHit h
      → add_element s (hit_element p h) ≡ record s { hit_data = s.hit_data ++ h ∷ [] }
  unfolding add_element
  add_element-hit h s f = rw (
    check_is_hit-hit_word p (hit_fields h) q (hit_fields-FitsHitCompact h f),
    array_to_hit-hit_word p h q f,
  )

  translate-markers :
      (ms : List MarkerData) (s : StructData)
      → All FitsMarker ms
      → translate_raw_data s (map (marker_element p) ms)
        ≡ record s { marker_data = s.marker_data ++ ms }
  unfolding translate_raw_data
  translate-markers [] s f = rw append-nil
  translate-markers (m ∷ ms) s f =
      let next : StructData = record s { marker_data = s.marker_data ++ m ∷ [] } in
      ap (λ t. translate_raw_data t (map (marker_element p) ms)) (add_element-marker m s f.0)
      ∙ translate-markers ms next f.1
      ∙ rw (append_assoc s.marker_data (m ∷ []) ms)

  translate-hits :
      (hs : List HitData) (es : List ℕ) (s : StructData)
      → All FitsHit hs
      → translate_raw_data s (map (hit_element p) hs ++ es)
        ≡ translate_raw_data (record s { hit_data = s.hit_data ++ hs }) es
  unfolding translate_raw_data
  translate-hits [] es s f = rw append-nil
  translate-hits (h ∷ hs) es s f =
      let next : StructData = record s { hit_data = s.hit_data ++ h ∷ [] } in
      ap (λ t. translate_raw_data t (map (hit_element p) hs ++ es)) (add_element-hit h s f.0)
      ∙ translate-hits hs es next f.1
      ∙ rw (append_assoc s.hit_data (h ∷ []) hs)

  hits-lt : (hs : List HitData) → All FitsHit hs → All (λ e. e < 2 ^ 48) (map (hit_element p) hs)
  hits-lt [] f = tt
  hits-lt (h ∷ hs) f = (hit_element-lt p h q f.0, hits-lt hs f.1)

  pub elements-lt :
      (hs : List HitData) (ms : List MarkerData)
      → All FitsHit hs
      → All FitsMarker ms
      → All (λ e. e < 2 ^ 48) (map (hit_element p) hs ++ map (marker_element p) ms)
  elements-lt [] [] f g = tt
  elements-lt [] (m ∷ ms) f g = (marker_element-lt p m q g.0, elements-lt [] ms f g.1)
  elements-lt (h ∷ hs) ms f g = (hit_element-lt p h q f.0, elements-lt hs ms f.1 g)

  -- The elements of a frame are translated back to its hits and markers.
  pub translate_elements :
      (input : StructData) (header : ReceiveDataHeader)
      → All FitsHit input.hit_data
      → All FitsMarker input.marker_data
      → translate_raw_data
          (record { header = header; marker_data = []; hit_data = [] })
          (elements p input)
        ≡ record input { header = header }
  translate_elements input header f g =
      let start : StructData = record { header = header; marker_data = []; hit_data = [] } in
      translate-hits input.hit_data (map (marker_element p) input.marker_data) start f
      ∙ translate-markers input.marker_data (record start { hit_data = input.hit_data }) g

module _ (z : Zpp) (p : ℕ) (header : ReceiveDataHeader) (es : List ℕ) (v : IsHeader header)
    (fits : All (λ e. e < 2 ^ 48) es) where
  get_frame-elements :
      get_frame z (length es) (put_header z p header ++ body_bytes es) ≡ some (header, swapped es)
  unfolding get_frame
  get_frame-elements = rw (
    get_header-put_header z p header (body_bytes es) v,
    get_frame,
    get_elements-body_bytes z es fits,
  )

  -- Any elements are read, by what follows the tests of `convert`.
  pub read_frame-elements :
      read_frame z (length es) (put_header z p header ++ body_bytes es) empty_struct
      ≡ some (
          value (
            translate_raw_data (record { header = header; marker_data = []; hit_data = [] }) es,
            es,
          ))
  unfolding read_frame
  read_frame-elements = rw (get_frame-elements, read_frame, byte_reverse-swapped es fits)
