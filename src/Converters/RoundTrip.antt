-- ===== src/Converters/RoundTrip.antt =====
-- StructSerializer.cpp and StructDeserializer.cpp against one another.
use mathlib.Core.List.{append-nil}
use srs_control.Base.Expected.{value}
use srs_control.Base.{
  ℕ, ◌+◌, ◌-◌, ◌*◌, ◌/◌, ◌^◌, ◌<◌, ◌≡◌, ap, ◌∙◌, ◌++◌, false, List, [], ◌∷◌, map, some, arith,
  length, length-append, length-map, drop_beyond, ◌≤◌, ◌==◌, leb, set, get_or,
}
use srs_control.Converters.Lines.{convert_one_line}
use srs_control.Converters.Read.{read_frame-elements, elements-lt, translate_elements}
use srs_control.Converters.StructDeserializer
use srs_control.Converters.StructDeserializer.{StructDeserializer, translate_raw_data}
use srs_control.Converters.StructSerializer
use srs_control.Converters.StructSerializer.{StructSerializer, put_header}
use srs_control.Converters.Wire.{
  hit_element, marker_element, elements, body_bytes, frame_bytes, length-body_bytes,
  length-put_header,
}
use srs_control.Converters.Zpp.{Zpp}
use srs_control.Data.Structs.{
  ReceiveDataHeader, StructData, IsHeader, FitsHit, FitsMarker, All, reset_struct_data,
  empty_struct,
}

-- A frame that the wire format holds, with at least one element.
pub record IsFrame (s : StructData) : Type 0 where
  pub header : IsHeader s.header
  pub hit_data : All FitsHit s.hit_data
  pub marker_data : All FitsMarker s.marker_data
  pub not_empty : 0 < length s.hit_data + length s.marker_data

-- A frame of any elements is read as what they are translated to.
pub convert-elements :
    (z : Zpp) (p : ℕ) (header : ReceiveDataHeader) (es : List ℕ)
    → IsHeader header
    → All (λ e. e < 2 ^ 48) es
    → 0 < length es
    → StructDeserializer.convert z (put_header z p header ++ body_bytes es) empty_struct
      ≡ some (
          value (
            translate_raw_data (record { header = header; marker_data = []; hit_data = [] }) es,
            es,
          ))
unfolding StructDeserializer.convert
convert-elements z p header es v fits some_elements =
    rw (long_enough, count, has_elements, read_frame-elements z p header es v fits)
  where
    length-frame : length (put_header z p header ++ body_bytes es) ≡ 16 + 6 * length es
    length-frame = omega (
      arith,
      length-append (put_header z p header) (body_bytes es),
      length-put_header z p header,
      length-body_bytes es,
    )

    count : (length (put_header z p header ++ body_bytes es) - 16) / 6 ≡ length es
    count = omega (arith, length-frame)

    long_enough : leb (length (put_header z p header ++ body_bytes es)) 16 ≡ false
    long_enough = ground (arith, length-frame, some_elements)

    has_elements : (length es == 0) ≡ false
    has_elements = ground (arith, some_elements)

module _ (z : Zpp) (p : ℕ) (q : p < 2 ^ 16) (input : StructData) (v : IsFrame input) where
  length-elements : length (elements p input) ≡ length input.hit_data + length input.marker_data
  length-elements = rw (
    length-append (map (hit_element p) input.hit_data) (map (marker_element p) input.marker_data),
    length-map input.hit_data (hit_element p),
    length-map input.marker_data (marker_element p),
  )

  -- The bytes of a frame are read as that frame, into a structure that was reset.
  pub convert-frame_bytes :
      StructDeserializer.convert z (frame_bytes z p input) empty_struct
      ≡ some (value (input, elements p input))
  convert-frame_bytes =
      convert-elements z p input.header (elements p input) v.header
        (elements-lt p q input.hit_data input.marker_data v.hit_data v.marker_data)
        (omega (arith, length-elements, v.not_empty))
      ∙ ap (λ s. some (value (s, elements p input)))
          (translate_elements p q input input.header v.hit_data v.marker_data)

-- What the serializer writes for a frame, with one line whose old output is no longer than this
-- frame, the deserializer reads back as the same frame, on any line and whatever it held before.
pub run-convert :
    (z : Zpp) (p line : ℕ) (old buffer : List ℕ) (d : StructDeserializer) (input : StructData)
    → p < 2 ^ 16
    → IsFrame input
    → length old ≤ length (frame_bytes z p input)
    → let s : StructSerializer = record {
      output_data = old ∷ [];
      compact_data_buffer = buffer ∷ [];
    } in
      StructDeserializer.run z d
        (get_or (StructSerializer.convert z p s input 0).0.output_data 0 [])
        line
      ≡ some (
        record {
          raw_body_part_data = set d.raw_body_part_data line (elements p input);
          output_data = set d.output_data line input;
        },
        value input,
      )
unfolding StructDeserializer.run reset_struct_data
run-convert z p line old buffer d input q v short = rw (
  (convert_one_line z p old buffer input v.hit_data v.marker_data).1,
  drop_beyond (length (frame_bytes z p input)) old short,
  append-nil (frame_bytes z p input),
  convert-frame_bytes z p q input v,
)
