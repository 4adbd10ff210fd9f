-- ===== src/Data/Structs.antt =====
-- backend/srs/data/SRSDataStructs.hpp: the data of one frame. An unsigned field is a number, and
-- the widths of the fields are the predicates below.
pub use srs_control.Base.{All}
use srs_control.Base.{ℕ, ◌^◌, ◌<◌, Bool, List, []}

pub record ReceiveDataHeader : Type 0 where
  pub frame_counter : ℕ
  pub vmm_tag : ℕ × ℕ × ℕ
  pub fec_id : ℕ
  pub udp_timestamp : ℕ
  pub overflow : ℕ

pub record MarkerData : Type 0 where
  pub vmm_id : ℕ
  pub srs_timestamp : ℕ

pub record HitData : Type 0 where
  pub is_over_threshold : Bool
  pub channel_num : ℕ
  pub tdc : ℕ
  pub offset : ℕ
  pub vmm_id : ℕ
  pub adc : ℕ
  pub bc_id : ℕ

pub record StructData : Type 0 where
  pub header : ReceiveDataHeader
  pub marker_data : List MarkerData
  pub hit_data : List HitData

abbrev pub empty_header : ReceiveDataHeader
empty_header = record {
  frame_counter = 0;
  vmm_tag = (0, 0, 0);
  fec_id = 0;
  udp_timestamp = 0;
  overflow = 0;
}

abbrev pub empty_struct : StructData
empty_struct = record { header = empty_header; marker_data = []; hit_data = [] }

unfoldable pub reset_struct_data : StructData → StructData
reset_struct_data struct_data = record struct_data {
  header = empty_header;
  marker_data = [];
  hit_data = [];
}

-- The values that the declared integer types of a header hold.
pub record IsHeader (h : ReceiveDataHeader) : Type 0 where
  pub frame_counter : h.frame_counter < 2 ^ 32
  pub vmm_tag : (h.vmm_tag.0 < 2 ^ 8) × (h.vmm_tag.1 < 2 ^ 8) × (h.vmm_tag.2 < 2 ^ 8)
  pub fec_id : h.fec_id < 2 ^ 8
  pub udp_timestamp : h.udp_timestamp < 2 ^ 32
  pub overflow : h.overflow < 2 ^ 32

-- The values that the bit fields of the wire format hold.
pub record FitsMarker (m : MarkerData) : Type 0 where
  pub vmm_id : m.vmm_id < 2 ^ 5
  pub srs_timestamp : m.srs_timestamp < 2 ^ 42

pub record FitsHit (h : HitData) : Type 0 where
  pub channel_num : h.channel_num < 2 ^ 6
  pub bc_id : h.bc_id < 2 ^ 12
  pub adc : h.adc < 2 ^ 10
  pub vmm_id : h.vmm_id < 2 ^ 5
  pub offset : h.offset < 2 ^ 5
  pub tdc : h.tdc < 2 ^ 8
