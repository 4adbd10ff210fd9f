-- ===== src/Converters/Proto.antt =====
-- backend/srs/converters/StructToProtoConverter.cpp and ProtoToStructConverter.hpp, on the messages
-- of backend/srs/data/message.proto: a message is a record of its fields, with the numbers that a
-- field of type uint32 or uint64 holds. A message that was cleared has its default values.
pub mod ToProto
pub mod ToStruct
pub mod RoundTrip
mod Tests
use srs_control.Base.{ℕ, Bool, List, []}

pub record ProtoHeader : Type 0 where
  pub frame_counter : ℕ
  pub fec_id : ℕ
  pub udp_timestamp : ℕ
  pub overflow : ℕ

pub record ProtoMarker : Type 0 where
  pub vmm_id : ℕ
  pub srs_timestamp : ℕ

pub record ProtoHit : Type 0 where
  pub is_over_threshold : Bool
  pub channel_num : ℕ
  pub tdc : ℕ
  pub offset : ℕ
  pub vmm_id : ℕ
  pub adc : ℕ
  pub bc_id : ℕ

pub record ProtoData : Type 0 where
  pub header : ProtoHeader
  pub marker_data : List ProtoMarker
  pub hit_data : List ProtoHit

abbrev pub cleared : ProtoData
cleared = record {
  header = record { frame_counter = 0; fec_id = 0; udp_timestamp = 0; overflow = 0 };
  marker_data = [];
  hit_data = [];
}
