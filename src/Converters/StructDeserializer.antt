-- ===== src/Converters/StructDeserializer.antt =====
-- backend/srs/converters/StructDeserializer.cpp and .hpp: the bytes of a frame to its structure.
use srs_control.Base.Expected.{Expected, value, unexpected}
use srs_control.Base.{
  ℕ, zero, suc, ◌-◌, ◌/◌, ◌%◌, ◌^◌, Bool, not, List, [], ◌∷◌, ◌++◌, map, Option, none, some, leb,
  ◌==◌, if◌then◌else◌, length, get_or, set,
}
use srs_control.Converters.Zpp.{Zpp}
use srs_control.Data.Compact.{word_hit, word_marker}
use srs_control.Data.Structs.{
  ReceiveDataHeader, MarkerData, HitData, StructData, empty_struct, reset_struct_data,
}
use srs_control.Utils.Bitset.{merge_bits, bitset, shift_left}
use srs_control.Utils.ByteSwap.{byte_swap}
use srs_control.Utils.Gray.{gray_to_binary}

-- The two messages of `convert`. What `or_throw` throws is a `none` around the result.
pub data Error : Type 0 where
  size_too_small cannot_read_header : Error

abbrev pub Converted : Type 0
Converted = Option (Expected Error (StructData × List ℕ))

-- The word that `convert_to` reads the fields from.
abbrev expand : (raw_data : ℕ) → ℕ
expand raw_data = shift_left 64 (bitset 64 raw_data) 16

unfoldable pub array_to_marker : (raw_data : ℕ) → MarkerData
array_to_marker raw_data =
    let compact = word_marker (expand raw_data) in
    record {
      srs_timestamp =
          merge_bits 32 10 (bitset 32 compact.timestamp_high_bits)
            (bitset 10 compact.timestamp_low_bits);
      vmm_id = compact.vmm_id % 2 ^ 8;
    }

unfoldable pub array_to_hit : (raw_data : ℕ) → HitData
array_to_hit raw_data =
    let compact = word_hit (expand raw_data) in
    record {
      is_over_threshold = not (compact.is_over_threshold == 0);
      channel_num = compact.channel_num % 2 ^ 8;
      tdc = compact.tdc % 2 ^ 8;
      offset = compact.offset % 2 ^ 8;
      vmm_id = compact.vmm_id % 2 ^ 8;
      adc = compact.adc % 2 ^ 16;
      bc_id = gray_to_binary (compact.bc_id % 2 ^ 16);
    }

-- `element.test(FLAG_BIT_POSITION)`.
unfoldable pub check_is_hit : (element : ℕ) → Bool
check_is_hit element = element / 2 ^ 15 % 2 == 1

unfoldable pub add_element : StructData → ℕ → StructData
add_element struct_data element =
    if check_is_hit element
    then record struct_data { hit_data = struct_data.hit_data ++ array_to_hit element ∷ [] }
    else record struct_data {
      marker_data = struct_data.marker_data ++ array_to_marker element ∷ [];
    }

unfoldable pub translate_raw_data : StructData → List ℕ → StructData
translate_raw_data struct_data [] = struct_data
translate_raw_data struct_data (element ∷ rest) =
    translate_raw_data (add_element struct_data element) rest

unfoldable pub byte_reverse_data_sq : List ℕ → List ℕ
byte_reverse_data_sq = map (byte_swap 48)

infixl 5 ◌>>=◌
abbrev ◌>>=◌ : {A : Type 0} {B : Type 0} → Option A → (A → Option B) → Option B
none >>= f = none
some a >>= f = f a

module _ (z : Zpp) where
  unfoldable pub get_header : List ℕ → Option (ReceiveDataHeader × List ℕ)
  get_header bytes = do
    (frame_counter, bytes) ← z.get_uint 4 bytes
    (tag₀, bytes) ← z.get_uint 1 bytes
    (tag₁, bytes) ← z.get_uint 1 bytes
    (tag₂, bytes) ← z.get_uint 1 bytes
    (fec_id, bytes) ← z.get_uint 1 bytes
    (udp_timestamp, bytes) ← z.get_uint 4 bytes
    (overflow, bytes) ← z.get_uint 4 bytes
    let header : ReceiveDataHeader = record {
      frame_counter = frame_counter;
      vmm_tag = (tag₀, tag₁, tag₂);
      fec_id = fec_id;
      udp_timestamp = udp_timestamp;
      overflow = overflow;
    }
    some (header, bytes)

  -- The elements of a sequence of so many bit sets.
  unfoldable pub get_elements : (count : ℕ) → List ℕ → Option (List ℕ)
  get_elements zero bytes = some []
  get_elements (suc count) bytes = do
    (element, bytes) ← z.get_bitset 6 bytes
    rest ← get_elements count bytes
    some (element ∷ rest)

  unfoldable pub get_frame : (count : ℕ) → List ℕ → Option (ReceiveDataHeader × List ℕ)
  get_frame count bytes = do
    (header, bytes) ← get_header bytes
    body ← get_elements count bytes
    some (header, body)

  -- What follows the resizing of `body_part_data`: the structure, and the elements as they were
  -- translated.
  unfoldable pub read_frame : (count : ℕ) → List ℕ → StructData → Converted
  read_frame count binary_data output_data = elim (get_frame count binary_data) [
    | none ↦ none
    | some (header, raw) ↦
        let body = byte_reverse_data_sq raw in
        some (value (translate_raw_data (record output_data { header = header }) body, body))
  ]

  unfoldable pub convert : List ℕ → StructData → Converted
  convert binary_data output_data =
      let read_bytes = length binary_data in
      let vector_size = (read_bytes - 16) / 6 in
      if leb read_bytes 16
      then some (unexpected size_too_small)
      else if vector_size == 0
      then some (unexpected cannot_read_header)
      else read_frame vector_size binary_data output_data

-- The object: for each pipeline line, the elements and the structure of the last frame.
pub record StructDeserializer : Type 0 where
  pub raw_body_part_data : List (List ℕ)
  pub output_data : List StructData

store :
    StructDeserializer
    → (line : ℕ) → StructData
    → Expected Error (StructData × List ℕ)
    → StructDeserializer × Expected Error StructData
store d line cleared (unexpected e) = (
  record {
    raw_body_part_data = set d.raw_body_part_data line [];
    output_data = set d.output_data line cleared;
  },
  unexpected e,
)
store d line cleared (value (struct_data, body)) = (
  record {
    raw_body_part_data = set d.raw_body_part_data line body;
    output_data = set d.output_data line struct_data;
  },
  value struct_data,
)

-- `run` on one line, whose structure is reset first.
unfoldable pub run :
    Zpp
    → StructDeserializer
    → (binary_data : List ℕ) (line : ℕ) → Option (StructDeserializer × Expected Error StructData)
unfolding store
run z d binary_data line = do
  let cleared = reset_struct_data (get_or d.output_data line empty_struct)
  converted ← convert z binary_data cleared
  some (store d line cleared converted)
