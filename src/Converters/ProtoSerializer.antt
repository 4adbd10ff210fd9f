-- ===== src/Converters/ProtoSerializer.antt =====
-- backend/srs/converters/ProtoSerializer.cpp and .hpp, and ProtoDeserializer.hpp: messages and their
-- bytes. A `StringOutputStream` appends to its string; its results are not looked at.
use srs_control.Base.Int.{ℤ, pos, ◌-ℤ◌}
use srs_control.Base.{
  ℕ, ◌%◌, ◌^◌, Bool, true, List, [], ◌++◌, ltb, if◌then◌else◌, length, set, get_or, replicate,
}
use srs_control.Converters.Proto.{ProtoData, cleared}
use srs_control.Converters.Protobuf.{Protobuf}

abbrev pub protobuf_enable_gzip : Bool
protobuf_enable_gzip = true

abbrev pub gzip_default_compression_level : ℕ
gzip_default_compression_level = 9

-- The constructor of `ProtoSerializerBase`.
unfoldable pub create : (n_lines : ℕ) → List (List ℕ)
create n_lines = replicate n_lines []

-- `ProtoSerializerBase::run`, with its converter.
module _ (converter : ProtoData → List ℕ → List ℕ) where
  -- The outputs of the lines, and the output of this one.
  unfoldable pub run :
      (output_data : List (List ℕ)) (input_data : ProtoData) (line_number : ℕ)
      → List (List ℕ) × List ℕ
  run output_data input_data line_number =
      let output_data = set output_data line_number [] in
      let output_data =
        set output_data line_number (converter input_data (get_or output_data line_number [])) in
      (output_data, get_or output_data line_number [])

-- `static_cast<int>`.
unfoldable pub to_int : ℕ → ℤ
to_int n = let low = n % 2 ^ 32 in if ltb low (2 ^ 31) then pos low else pos low -ℤ pos (2 ^ 32)

module _ (lib : Protobuf) where
  unfoldable pub protobuf_converter : ProtoData → (output_data : List ℕ) → List ℕ
  protobuf_converter proto_data output_data = output_data ++ lib.serialize proto_data

  unfoldable pub protobuf_delim_converter : ProtoData → (output_data : List ℕ) → List ℕ
  protobuf_delim_converter proto_data output_data =
      if protobuf_enable_gzip
      then output_data
        ++ lib.gzip gzip_default_compression_level (lib.serialize_delimited proto_data)
      else output_data ++ lib.serialize_delimited proto_data

  -- `ProtoDeserializer`, into a given message.
  unfoldable pub deserialize : (str_data : List ℕ) → ProtoData → ProtoData
  deserialize str_data proto = (lib.parse cleared str_data (to_int (length str_data))).1
