-- ===== src/Converters/Proto/ToProto.antt =====
-- backend/srs/converters/StructToProtoConverter.cpp and .hpp.
use srs_control.Base.{List, [], ◌∷◌, ◌++◌}
use srs_control.Converters.Proto.{ProtoMarker, ProtoHit, ProtoData, cleared}
use srs_control.Data.Structs.{MarkerData, HitData, StructData}

-- The fields that are set in a message that was added.
abbrev pub proto_marker : MarkerData → ProtoMarker
proto_marker m = record { vmm_id = m.vmm_id; srs_timestamp = m.srs_timestamp }

abbrev pub proto_hit : HitData → ProtoHit
proto_hit h = record {
  is_over_threshold = h.is_over_threshold;
  channel_num = h.channel_num;
  tdc = h.tdc;
  offset = h.offset;
  vmm_id = h.vmm_id;
  adc = h.adc;
  bc_id = h.bc_id;
}

unfoldable pub set_header : StructData → ProtoData → ProtoData
set_header s output = record output {
  header = record {
    frame_counter = s.header.frame_counter;
    fec_id = s.header.fec_id;
    udp_timestamp = s.header.udp_timestamp;
    overflow = s.header.overflow;
  };
}

unfoldable pub add_marker_data : List MarkerData → ProtoData → ProtoData
add_marker_data [] output = output
add_marker_data (m ∷ ms) output =
    add_marker_data ms (record output { marker_data = output.marker_data ++ proto_marker m ∷ [] })

unfoldable pub add_hit_data : List HitData → ProtoData → ProtoData
add_hit_data [] output = output
add_hit_data (h ∷ hs) output =
    add_hit_data hs (record output { hit_data = output.hit_data ++ proto_hit h ∷ [] })

unfoldable pub convert : StructData → ProtoData → ProtoData
convert s output = add_hit_data s.hit_data (add_marker_data s.marker_data (set_header s output))

-- `run` on one line, whose message is cleared first.
unfoldable pub run : StructData → ProtoData
run s = convert s cleared
