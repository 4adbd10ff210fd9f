-- ===== src/Converters/Protobuf.antt =====
-- The library protobuf, which is not part of the repository, as a parameter: the bytes of a message,
-- and the message that is read from bytes, on the records of the messages of
-- backend/srs/data/message.proto. The law is what the program relies on.
use srs_control.Base.Int.{ℤ, pos}
use srs_control.Base.{ℕ, ◌^◌, ◌<◌, ◌≡◌, Bool, true, List, length, All}
use srs_control.Converters.Proto.{ProtoHeader, ProtoMarker, ProtoHit, ProtoData, cleared}

-- The values of the declared types of the fields.
pub record IsProtoHeader (h : ProtoHeader) : Type 0 where
  pub frame_counter : h.frame_counter < 2 ^ 32
  pub fec_id : h.fec_id < 2 ^ 32
  pub udp_timestamp : h.udp_timestamp < 2 ^ 32
  pub overflow : h.overflow < 2 ^ 32

pub record IsProtoMarker (m : ProtoMarker) : Type 0 where
  pub vmm_id : m.vmm_id < 2 ^ 32
  pub srs_timestamp : m.srs_timestamp < 2 ^ 64

pub record IsProtoHit (h : ProtoHit) : Type 0 where
  pub channel_num : h.channel_num < 2 ^ 32
  pub tdc : h.tdc < 2 ^ 32
  pub offset : h.offset < 2 ^ 32
  pub vmm_id : h.vmm_id < 2 ^ 32
  pub adc : h.adc < 2 ^ 32
  pub bc_id : h.bc_id < 2 ^ 32

pub record IsProto (m : ProtoData) : Type 0 where
  pub header : IsProtoHeader m.header
  pub marker_data : All IsProtoMarker m.marker_data
  pub hit_data : All IsProtoHit m.hit_data

pub record Protobuf : Type 0 where
  pub serialize : ProtoData → List ℕ
  pub serialize_delimited : ProtoData → List ℕ
  pub gzip : (compression_level : ℕ) → List ℕ → List ℕ
  -- Reading a stream of so many bytes into a message: whether it succeeded, and the message.
  pub parse : ProtoData → (bytes : List ℕ) → (size : ℤ) → Bool × ProtoData
  pub parse-serialize :
      (m : ProtoData)
      → IsProto m
      → length (serialize m) < 2 ^ 31
      → parse cleared (serialize m) (pos (length (serialize m))) ≡ (true, m)
