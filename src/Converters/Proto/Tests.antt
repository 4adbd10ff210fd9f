-- ===== src/Converters/Proto/Tests.antt =====
-- A structure through a message: of the adc 777 there is 9 left.
use srs_control.Base.{◌≡◌, refl, true, [], ◌∷◌, map, arith}
use srs_control.Converters.Proto.RoundTrip.{with_low_adc, without_tag, convert-run}
use srs_control.Converters.Proto.ToProto
use srs_control.Converters.Proto.ToStruct
use srs_control.Data.Structs.{HitData, MarkerData, StructData, empty_struct}

abbrev hit : HitData
hit = record {
  is_over_threshold = true;
  channel_num = 33;
  tdc = 200;
  offset = 17;
  vmm_id = 9;
  adc = 777;
  bc_id = 3001;
}

abbrev marker : MarkerData
marker = record { vmm_id = 4; srs_timestamp = 987654321 }

abbrev input : StructData
input = record {
  header = record {
    frame_counter = 7;
    vmm_tag = (b'V', b'M', b'3');
    fec_id = 2;
    udp_timestamp = 123456;
    overflow = 0;
  };
  marker_data = marker ∷ [];
  hit_data = hit ∷ [];
}

low_adc : (with_low_adc hit).adc ≡ 9
low_adc = refl

convert-run_example : ToStruct.convert (ToProto.run input) empty_struct ≡ record {
  header = without_tag input.header;
  marker_data = input.marker_data;
  hit_data = map with_low_adc input.hit_data;
}
convert-run_example = convert-run input empty_struct (omega arith) (omega arith) (omega arith)
