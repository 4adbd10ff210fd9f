-- ===== src/Converters/StructSerializer.antt =====
-- backend/srs/converters/StructSerializer.cpp: a frame to its bytes. `compact_data_buffer` of
-- `convert` is one entry of the member `compact_data_buffer_`, which the loop over the hits writes
-- out whole.
use mathlib.Core.List.{flatten}
use srs_control.Base.Expected.{Expected, value, unexpected, ◌>>◌}
use srs_control.Base.{
  ℕ, ◌+◌, ◌%◌, ◌^◌, Bool, true, false, List, [], ◌∷◌, ◌++◌, map, reverse, leb, if◌then◌else◌,
  length, get_or, set, replicate, drop,
}
use srs_control.Converters.Zpp.{Zpp}
use srs_control.Data.Compact.{HitDataCompact, MarkerDataCompact, hit_word, marker_word}
use srs_control.Data.Structs.{ReceiveDataHeader, MarkerData, HitData, StructData}
use srs_control.Utils.Bitset.{get_low_bits, get_high_bits, bitset}
use srs_control.Utils.Gray.{binary_to_gray}

pub data Error : Type 0 where
  exceeding_size_limit : Error

-- `if (value >= 1ULL << length)`.
unfoldable pub check_compact_max_size : (value length : ℕ) → Expected Error (Unit {0})
check_compact_max_size x length =
    if leb (2 ^ length) x then unexpected exceeding_size_limit else value tt

abbrev pub bit_of : Bool → ℕ
bit_of true = 1
bit_of false = 0

unfoldable pub marker_to_compact : MarkerData → Expected Error MarkerDataCompact
unfolding check_compact_max_size
marker_to_compact marker_data = do
  check_compact_max_size marker_data.vmm_id 5
  check_compact_max_size marker_data.srs_timestamp (10 + 32)
  let timestamp_bits = bitset (32 + 10) marker_data.srs_timestamp
  value (record {
    timestamp_low_bits = get_low_bits 10 42 timestamp_bits % 2 ^ 10;
    timestamp_high_bits = get_high_bits 32 42 timestamp_bits % 2 ^ 32;
    flag = 0;
    vmm_id = marker_data.vmm_id % 2 ^ 5;
  })

unfoldable pub hit_to_compact : HitData → Expected Error HitDataCompact
unfolding check_compact_max_size
hit_to_compact hit_data = do
  check_compact_max_size hit_data.channel_num 6
  check_compact_max_size hit_data.bc_id 12
  check_compact_max_size hit_data.adc 10
  check_compact_max_size hit_data.vmm_id 5
  check_compact_max_size hit_data.offset 5
  value (record {
    vmm_id = hit_data.vmm_id % 2 ^ 5;
    flag = 1;
    adc = hit_data.adc % 2 ^ 10;
    bc_id = binary_to_gray (hit_data.bc_id % 2 ^ 12) % 2 ^ 12;
    channel_num = hit_data.channel_num % 2 ^ 6;
    is_over_threshold = bit_of hit_data.is_over_threshold;
    offset = hit_data.offset % 2 ^ 5;
    tdc = hit_data.tdc % 2 ^ 8;
  })

pub record StructSerializer : Type 0 where
  pub output_data : List (List ℕ)
  pub compact_data_buffer : List (List ℕ)

-- The constructor: `n_lines` empty outputs and buffers.
unfoldable pub create : (n_lines : ℕ) → StructSerializer
create n_lines = record {
  output_data = replicate n_lines [];
  compact_data_buffer = replicate n_lines [];
}

-- `std::ranges::fill(compact_data_buffer, 0)` on the entry of a line.
unfoldable pub fill_zero : List (List ℕ) → (line : ℕ) → List (List ℕ)
fill_zero buffers line = set buffers line (map (λ _. 0) (get_or buffers line []))

module _ (z : Zpp) (padding : ℕ) where
  -- The bytes of the word, without the two of the padding, in reverse.
  unfoldable pub compact_to_vector : (word : ℕ) → List ℕ
  compact_to_vector word = reverse (drop 2 (z.put_bitset 8 word))

  unfoldable pub put_header : ReceiveDataHeader → List ℕ
  put_header h =
      z.put_uint 4 h.frame_counter
      ++ (z.put_uint 1 h.vmm_tag.0
          ++ (z.put_uint 1 h.vmm_tag.1
              ++ (z.put_uint 1 h.vmm_tag.2
                  ++ (z.put_uint 1 h.fec_id
                      ++ (z.put_uint 4 h.udp_timestamp ++ z.put_uint 4 h.overflow)))))

  -- The loop over the hits: the buffers, the bytes written so far, and how it ended.
  unfoldable pub serialize_hits :
      (line : ℕ) (buffers : List (List ℕ)) (out : List ℕ)
      → List HitData
      → List (List ℕ) × List ℕ × Expected Error (Unit {0})
  serialize_hits line buffers out [] = (buffers, out, value tt)
  serialize_hits line buffers out (hit ∷ hits) = elim (hit_to_compact hit) [
    | unexpected e ↦ (fill_zero buffers line, out, unexpected e)
    | value hit_compact ↦
        let buffers' =
          set (fill_zero buffers line) line (compact_to_vector (hit_word padding hit_compact)) in
        serialize_hits line buffers' (out ++ flatten buffers') hits
  ]

  -- The loop over the markers.
  unfoldable pub serialize_markers :
      (line : ℕ) (buffers : List (List ℕ)) (out : List ℕ)
      → List MarkerData
      → List (List ℕ) × List ℕ × Expected Error (Unit {0})
  serialize_markers line buffers out [] = (buffers, out, value tt)
  serialize_markers line buffers out (marker ∷ markers) = elim (marker_to_compact marker) [
    | unexpected e ↦ (fill_zero buffers line, out, unexpected e)
    | value marker_compact ↦
        let buffer = compact_to_vector (marker_word padding marker_compact) in
        serialize_markers line (set (fill_zero buffers line) line buffer) (out ++ buffer) markers
  ]

  serialize_body :
      (line : ℕ)
      → List MarkerData
      → List (List ℕ) × List ℕ × Expected Error (Unit {0})
      → List (List ℕ) × List ℕ × Expected Error (Unit {0})
  serialize_body line markers (buffers, out, unexpected e) = (buffers, out, unexpected e)
  serialize_body line markers (buffers, out, value _) = serialize_markers line buffers out markers

  -- `convert` on one line; an error leaves what was written before it. The output is not cleared.
  unfoldable pub convert :
      StructSerializer → StructData → (line : ℕ) → StructSerializer × Expected Error ℕ
  unfolding serialize_body
  convert s input line =
      let (buffers, out, end) = serialize_body line input.marker_data (
        serialize_hits line (set s.compact_data_buffer line []) (put_header input.header)
          input.hit_data) in
      (
        record s {
          output_data = set s.output_data line (z.write (get_or s.output_data line []) out);
          compact_data_buffer = buffers;
        },
        (end >> value (length input.marker_data + length input.hit_data)),
      )
