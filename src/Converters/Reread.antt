-- ===== src/Converters/Reread.antt =====
-- StructDeserializer.cpp on any bytes, followed by StructSerializer.cpp: the structure that is read
-- holds the values of its types, and what is written of it.
use srs_control.Base.Digits.{AreBytes, drop-AreBytes}
use srs_control.Base.Expected.{value}
use srs_control.Base.{
  ℕ, ◌+◌, ◌-◌, ◌*◌, ◌/◌, ◌^◌, ◌<◌, ◌≤◌, ◌≡◌, refl, ap, ap₂, ◌∙◌, List, [], ◌∷◌, ◌++◌, map, some,
  arith, All, length, length-map, length-drop, take, drop, set,
}
use srs_control.Converters.Body.{get_elements_total}
use srs_control.Converters.Header.{get_header_total}
use srs_control.Converters.Lines.{convert_one_line, written_over}
use srs_control.Converters.RoundTrip.{IsFrame}
use srs_control.Converters.StructDeserializer
use srs_control.Converters.StructDeserializer.{
  StructDeserializer, array_to_hit, array_to_marker, check_is_hit, add_element, translate_raw_data,
  byte_reverse_data_sq, read_frame,
}
use srs_control.Converters.StructSerializer
use srs_control.Converters.StructSerializer.{StructSerializer, put_header}
use srs_control.Converters.Total.{read_frame_step, length-reversed}
use srs_control.Converters.Translate.{
  hits_of, markers_of, translate_raw_data-eq, hits-FitsHit, markers-FitsMarker, length-hits-markers,
  elements-hits, elements-markers,
}
use srs_control.Converters.Wire.{body_bytes, frame_bytes}
use srs_control.Converters.Zpp.{Zpp}
use srs_control.Data.Structs.{
  ReceiveDataHeader, StructData, IsHeader, reset_struct_data, empty_struct,
}

-- How many elements follow the header.
abbrev pub count_of_elements : List ℕ → ℕ
count_of_elements bs = (length bs - 16) / 6

-- What is read of some bytes: the elements, and the structure that is made of them.
record IsRead (z : Zpp) (p : ℕ) (bs : List ℕ) : Type 0 where
  header : ReceiveDataHeader
  body : List ℕ
  answer :
      StructDeserializer.convert z bs empty_struct
      ≡ some (
          value (
            record {
              header = header;
              marker_data = map array_to_marker (markers_of body);
              hit_data = map array_to_hit (hits_of body);
            },
            body,
          ))
  in_range : IsHeader header
  header_bytes : put_header z p header ≡ take 16 bs
  count : length body ≡ count_of_elements bs
  lt : All (λ e. e < 2 ^ 48) body
  bytes : body_bytes body ≡ take (6 * count_of_elements bs) (drop 16 bs)

module _ (z : Zpp) (p : ℕ) (bs : List ℕ) (h : AreBytes bs) (long : 22 ≤ length bs) where
  convert-IsRead : IsRead z p bs
  unfolding StructDeserializer.convert
  convert-IsRead =
      let count = count_of_elements bs in
      let (header, e, in_range, header_bytes) = get_header_total z bs h p (omega arith) in
      let (es, k, len, lt, bytes) =
        get_elements_total z count (drop 16 bs) (omega (arith, length-drop 16 bs))
          (drop-AreBytes 16 bs h) in
      let read = read_frame_step z count bs (drop 16 bs) es header e k empty_struct in
      let start : StructData = record empty_struct { header = header } in
      record {
        header = header;
        body = byte_reverse_data_sq es;
        answer =
            ground (arith, read)
            ∙ ap (λ s. some (value (s, byte_reverse_data_sq es)))
                (translate_raw_data-eq (byte_reverse_data_sq es) start);
        in_range = in_range;
        header_bytes = header_bytes;
        count = length-reversed es ∙ len;
        lt = lt;
        bytes = bytes;
      }

  abbrev struct_read : IsRead z p bs → StructData
  struct_read r = record {
    header = r.header;
    marker_data = map array_to_marker (markers_of r.body);
    hit_data = map array_to_hit (hits_of r.body);
  }

  count-struct_read :
      (r : IsRead z p bs)
      → length (struct_read r).hit_data + length (struct_read r).marker_data ≡ count_of_elements bs
  count-struct_read r = omega (
    arith,
    r.count,
    length-hits-markers r.body,
    length-map (hits_of r.body) array_to_hit,
    length-map (markers_of r.body) array_to_marker,
  )

  struct_read-IsFrame : (r : IsRead z p bs) → IsFrame (struct_read r)
  struct_read-IsFrame r = record {
    header = r.in_range;
    hit_data = hits-FitsHit r.body r.lt;
    marker_data = markers-FitsMarker r.body r.lt;
    not_empty = omega (arith, count-struct_read r);
  }

  frame_bytes-struct_read :
      (r : IsRead z p bs)
      → p < 2 ^ 16
      → frame_bytes z p (struct_read r)
        ≡ take 16 bs ++ body_bytes (hits_of r.body ++ markers_of r.body)
  frame_bytes-struct_read r q =
      ap₂ ◌++◌ r.header_bytes (
        ap body_bytes (ap₂ ◌++◌ (elements-hits p q r.body r.lt) (elements-markers p q r.body r.lt)))

  run_read_lem :
      (r : IsRead z p bs) (d : StructDeserializer) (line : ℕ)
      → StructDeserializer.run z d bs line
        ≡ some (
          record {
            raw_body_part_data = set d.raw_body_part_data line r.body;
            output_data = set d.output_data line (struct_read r);
          },
          value (struct_read r),
        )
  unfolding StructDeserializer.run reset_struct_data
  run_read_lem r d line = rw r.answer refl

-- Of any 22 bytes or more, on any line and whatever the object held before, the deserializer makes a
-- frame in which the header, every hit and every marker hold the values of their declared types and
-- bit fields, with as many elements as there are whole groups of six bytes after the header.
pub run-IsFrame :
    (z : Zpp) (bs : List ℕ) (d : StructDeserializer) (line : ℕ)
    → AreBytes bs
    → 22 ≤ length bs
    → (after : StructDeserializer) × (s : StructData) × (StructDeserializer.run z d bs line
        ≡ some (after, value s))
      × IsFrame s
      × (length s.hit_data + length s.marker_data ≡ count_of_elements bs)
run-IsFrame z bs d line h long =
    let r = convert-IsRead z 0 bs h long in
    let s = struct_read z 0 bs h long r in
    (
      record {
        raw_body_part_data = set d.raw_body_part_data line r.body;
        output_data = set d.output_data line s;
      },
      s,
      run_read_lem z 0 bs h long r d line,
      struct_read-IsFrame z 0 bs h long r,
      count-struct_read z 0 bs h long r,
    )

-- What the deserializer makes of any 22 bytes or more, the serializer with one line writes as the
-- same header and the same elements: first those that are hits, then the others, each in the order
-- in which they were received. Bytes that are no whole element are left out, and of an old output
-- that is longer, the end is left behind.
pub convert-run-deserialized :
    (z : Zpp) (p line : ℕ) (old buffer bs : List ℕ) (d : StructDeserializer)
    → p < 2 ^ 16
    → AreBytes bs
    → 22 ≤ length bs
    → let serializer : StructSerializer = record {
      output_data = old ∷ [];
      compact_data_buffer = buffer ∷ [];
    } in
      (after : StructDeserializer) × (s : StructData) × (body : List ℕ) × (StructDeserializer.run z
          d bs line
        ≡ some (after, value s))
      × (body_bytes body ≡ take (6 * count_of_elements bs) (drop 16 bs))
      × ((StructSerializer.convert z p serializer s 0).1 ≡ value (count_of_elements bs))
      × ((StructSerializer.convert z p serializer s 0).0.output_data
          ≡ written_over old (take 16 bs ++ body_bytes (hits_of body ++ markers_of body)) ∷ [])
convert-run-deserialized z p line old buffer bs d q h long =
    let r = convert-IsRead z p bs h long in
    let s = struct_read z p bs h long r in
    let f = struct_read-IsFrame z p bs h long r in
    let (returned, written) = convert_one_line z p old buffer s f.hit_data f.marker_data in
    (
      record {
        raw_body_part_data = set d.raw_body_part_data line r.body;
        output_data = set d.output_data line s;
      },
      s,
      r.body,
      run_read_lem z p bs h long r d line,
      r.bytes,
      returned ∙ ap value (omega (arith, count-struct_read z p bs h long r)),
      written ∙ ap (λ xs. written_over old xs ∷ []) (frame_bytes-struct_read z p bs h long r q),
    )
