-- ===== src/Readers/ProtoMsg.antt =====
-- backend/srs/readers/ProtoMsgReader.cpp and .hpp: bytes to a structure, of the caller or of the
-- reader.
pub mod ReadBack
mod Tests
use srs_control.Base.{ℕ, List}
use srs_control.Converters.Proto.{ProtoData, cleared}
use srs_control.Converters.Proto.ToStruct
use srs_control.Converters.ProtoSerializer.{deserialize}
use srs_control.Converters.Protobuf.{Protobuf}
use srs_control.Data.Structs.{StructData, empty_struct}

-- The data of the deserializer and of the converter.
pub record ProtoMsg : Type 0 where
  pub proto_data : ProtoData
  pub struct_data : StructData

unfoldable pub create : ProtoMsg
create = record { proto_data = cleared; struct_data = empty_struct }

module _ (lib : Protobuf) where
  unfoldable pub convert_into : ProtoMsg → (msg : List ℕ) → StructData → ProtoMsg × StructData
  convert_into reader msg struct_data =
      let prot_struct = deserialize lib msg reader.proto_data in
      (record reader { proto_data = prot_struct }, ToStruct.convert prot_struct struct_data)

  unfoldable pub convert : ProtoMsg → (msg : List ℕ) → ProtoMsg × StructData
  convert reader msg =
      let prot_struct = deserialize lib msg reader.proto_data in
      let output = ToStruct.convert prot_struct reader.struct_data in
      (record { proto_data = prot_struct; struct_data = output }, output)
