-- ===== src/Converters/Proto/ToStruct.antt =====
-- backend/srs/converters/ProtoToStructConverter.hpp.
use srs_control.Base.{◌%◌, ◌^◌, List, [], ◌∷◌, ◌++◌}
use srs_control.Converters.Proto.{ProtoMarker, ProtoHit, ProtoData}
use srs_control.Data.Structs.{MarkerData, HitData, StructData, reset_struct_data}

-- The fields that are set in a structure that was added. The cast of `adc` is to eight bits.
abbrev pub struct_marker : ProtoMarker → MarkerData
struct_marker m = record { vmm_id = m.vmm_id % 2 ^ 8; srs_timestamp = m.srs_timestamp }

unfoldable pub struct_hit : ProtoHit → HitData
struct_hit h = record {
  is_over_threshold = h.is_over_threshold;
  channel_num = h.channel_num % 2 ^ 8;
  tdc = h.tdc % 2 ^ 8;
  offset = h.offset % 2 ^ 8;
  vmm_id = h.vmm_id % 2 ^ 8;
  adc = h.adc % 2 ^ 8;
  bc_id = h.bc_id % 2 ^ 16;
}

unfoldable pub set_header : ProtoData → StructData → StructData
set_header proto s = record s {
  header = record s.header {
    frame_counter = proto.header.frame_counter;
    fec_id = proto.header.fec_id % 2 ^ 8;
    udp_timestamp = proto.header.udp_timestamp;
    overflow = proto.header.overflow;
  };
}

unfoldable pub set_marker_data : List ProtoMarker → StructData → StructData
set_marker_data [] s = s
set_marker_data (m ∷ ms) s =
    set_marker_data ms (record s { marker_data = s.marker_data ++ struct_marker m ∷ [] })

unfoldable pub set_hit_data : List ProtoHit → StructData → StructData
set_hit_data [] s = s
set_hit_data (h ∷ hs) s = set_hit_data hs (record s { hit_data = s.hit_data ++ struct_hit h ∷ [] })

unfoldable pub convert : ProtoData → StructData → StructData
convert proto s =
    set_marker_data proto.marker_data
      (set_hit_data proto.hit_data (set_header proto (reset_struct_data s)))
