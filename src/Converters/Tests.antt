-- ===== src/Converters/Tests.antt =====
-- The theorems about the converters at concrete frames.
use mathlib.Core.List.{flatten}
use srs_control.Base.Digits.{le_bytes}
use srs_control.Base.Expected.{value, unexpected}
use srs_control.Base.{
  length-append, ℕ, ◌+◌, ◌-◌, ◌*◌, ◌/◌, ◌<◌, ◌≤◌, ◌≡◌, ◌⊎◌, refl, true, List, [], ◌∷◌, ◌++◌, some,
  arith, length, get_or, replicate, take, drop,
}
use srs_control.Converters.Archive.{archive, put_bytes}
use srs_control.Converters.Lines.{convert_one_line, length-convert_two_lines, written_over}
use srs_control.Converters.Reread.{run-IsFrame, convert-run-deserialized, count_of_elements}
use srs_control.Converters.RoundTrip.{IsFrame, run-convert}
use srs_control.Converters.StructDeserializer
use srs_control.Converters.StructDeserializer.{StructDeserializer, array_to_hit}
use srs_control.Converters.StructSerializer
use srs_control.Converters.StructSerializer.{StructSerializer, hit_to_compact, marker_to_compact}
use srs_control.Converters.Total.{convert_total}
use srs_control.Converters.Translate.{hits_of, markers_of}
use srs_control.Converters.Wire.{length-put_header, body_bytes, elements, frame_bytes}
use srs_control.Data.Compact.{hit_word, marker_word}
use srs_control.Data.Structs.{ReceiveDataHeader, HitData, MarkerData, StructData, empty_struct}
use srs_control.Utils.Bitset.{get_low_bits, get_high_bits}
use srs_control.Utils.Gray.{binary_to_gray}

abbrev header : ReceiveDataHeader
header = record {
  frame_counter = 7;
  vmm_tag = (b'V', b'M', b'3');
  fec_id = 2;
  udp_timestamp = 123456;
  overflow = 0;
}

abbrev hit : HitData
hit = record {
  is_over_threshold = true;
  channel_num = 33;
  tdc = 200;
  offset = 17;
  vmm_id = 9;
  adc = 777;
  bc_id = 3001;
}

abbrev marker : MarkerData
marker = record { vmm_id = 4; srs_timestamp = 987654321 }

abbrev frame : StructData
frame = record { header = header; marker_data = marker ∷ []; hit_data = hit ∷ [] }

frame-IsFrame : IsFrame frame
frame-IsFrame = omega arith

abbrev one_line : StructSerializer
one_line = record { output_data = (9 ∷ []) ∷ []; compact_data_buffer = [] ∷ [] }

abbrev fresh : StructDeserializer
fresh = record { raw_body_part_data = [] ∷ []; output_data = empty_struct ∷ [] }

short_output : length {A = ℕ} (9 ∷ []) ≤ length (frame_bytes archive 0 frame)
short_output = omega (
  arith,
  length-append (StructSerializer.put_header archive 0 header) (body_bytes (elements 0 frame)),
  length-put_header archive 0 header,
)

run-convert_example :
    StructDeserializer.run archive fresh
      (get_or (StructSerializer.convert archive 0 one_line frame 0).0.output_data 0 [])
      0
    ≡ some (
      record { raw_body_part_data = elements 0 frame ∷ []; output_data = frame ∷ [] },
      value frame,
    )
run-convert_example =
    run-convert archive 0 0 (9 ∷ []) [] fresh frame (omega arith) frame-IsFrame short_output

-- The model runs: the serializer's bytes for the frame, and back.
frame_wire :
    (StructSerializer.convert archive 0 one_line frame 0).0.output_data
    ≡ (0 ∷ 0 ∷ 0 ∷ 7 ∷ 86 ∷ 77 ∷ 51 ∷ 2 ∷ 0 ∷ 1 ∷ 226 ∷ 64 ∷ 0 ∷ 0 ∷ 0 ∷ 0 ∷ 138 ∷ 112 ∷ 158 ∷ 101
        ∷ 225 ∷ 200 ∷ 0 ∷ 14 ∷ 183 ∷ 154 ∷ 16 ∷ 177 ∷ [])
      ∷ []
unfolding StructSerializer.convert StructSerializer.put_header StructSerializer.serialize_hits
    StructSerializer.serialize_markers StructSerializer.fill_zero StructSerializer.compact_to_vector
    hit_to_compact marker_to_compact put_bytes le_bytes flatten hit_word marker_word binary_to_gray
    get_low_bits get_high_bits
frame_wire = refl

-- The header and one element and a half.
abbrev bytes : List ℕ
bytes = replicate 25 130

convert_total_example :
    ((25 ≤ 16)
      × (StructDeserializer.convert archive bytes empty_struct
          ≡ some (unexpected StructDeserializer.size_too_small)))
    ⊎ ((16 < length bytes)
        × (length bytes < 22)
        × (StructDeserializer.convert archive bytes empty_struct
            ≡ some (unexpected StructDeserializer.cannot_read_header)))
    ⊎ ((22 ≤ length bytes)
        × ((s : StructData) × (body : List ℕ) × (StructDeserializer.convert archive bytes
                empty_struct
              ≡ some (value (s, body)))
            × (length body ≡ (25 - 16) / 6)
            × (length s.hit_data + length s.marker_data ≡ 0 + 0 + (25 - 16) / 6)))
convert_total_example = convert_total archive bytes empty_struct (omega arith)

-- After an output that is longer than the frame.
abbrev used_line : StructSerializer
used_line = record { output_data = replicate 40 9 ∷ []; compact_data_buffer = [] ∷ [] }

convert_one_line_example :
    ((StructSerializer.convert archive 5 used_line frame 0).1 ≡ value 2)
    × ((StructSerializer.convert archive 5 used_line frame 0).0.output_data
        ≡ written_over (replicate 40 9) (frame_bytes archive 5 frame) ∷ [])
convert_one_line_example =
    convert_one_line archive 5 (replicate 40 9) [] frame (omega arith) (omega arith)

length-convert_two_lines_example :
    length (
      get_or
        (StructSerializer.convert archive 0
          (record {
            output_data = (1 ∷ 2 ∷ []) ∷ [] ∷ [];
            compact_data_buffer = [] ∷ (1 ∷ 2 ∷ 3 ∷ 4 ∷ 5 ∷ 6 ∷ []) ∷ [];
          })
          frame
          0).0.output_data
        0
        [])
    ≡ length (frame_bytes archive 0 frame)
      + 6 * 1
      + (2 - (length (frame_bytes archive 0 frame) + 6 * 1))
length-convert_two_lines_example =
    length-convert_two_lines archive 0 (1 ∷ 2 ∷ []) [] [] (1 ∷ 2 ∷ 3 ∷ 4 ∷ 5 ∷ 6 ∷ []) frame
      (omega arith) (omega arith)

abbrev one_frame : StructDeserializer
one_frame = record { raw_body_part_data = [] ∷ []; output_data = empty_struct ∷ [] }

run-IsFrame_example :
    (after : StructDeserializer) × (s : StructData) × (StructDeserializer.run archive one_frame
        bytes 0
      ≡ some (after, value s))
    × IsFrame s
    × (length s.hit_data + length s.marker_data ≡ count_of_elements bytes)
run-IsFrame_example = run-IsFrame archive bytes one_frame 0 (omega arith) (omega arith)

convert-run-deserialized_example :
    (after : StructDeserializer) × (s : StructData) × (body : List ℕ) × (StructDeserializer.run
        archive one_frame bytes 0
      ≡ some (after, value s))
    × (body_bytes body ≡ take (6 * count_of_elements bytes) (drop 16 bytes))
    × ((StructSerializer.convert archive 5 one_line s 0).1 ≡ value (count_of_elements bytes))
    × ((StructSerializer.convert archive 5 one_line s 0).0.output_data
        ≡ written_over (9 ∷ []) (take 16 bytes ++ body_bytes (hits_of body ++ markers_of body))
          ∷ [])
convert-run-deserialized_example =
    convert-run-deserialized archive 5 0 (9 ∷ []) [] bytes one_frame (omega arith) (omega arith)
      (omega arith)
