-- ===== src/Converters/Proto/RoundTrip.antt =====
-- What backend/srs/converters/ProtoToStructConverter.hpp makes of the messages of
-- backend/srs/converters/StructToProtoConverter.cpp.
use mathlib.Core.List.{append_assoc, append-nil}
use srs_control.Base.{
  ℕ, ◌%◌, ◌^◌, ◌<◌, ◌≡◌, refl, ap, ap₂, ◌∙◌, List, [], ◌∷◌, ◌++◌, map, All, arith,
}
use srs_control.Converters.Proto.{ProtoMarker, ProtoHit, ProtoData}
use srs_control.Converters.Proto.ToProto
use srs_control.Converters.Proto.ToProto.{proto_marker, proto_hit}
use srs_control.Converters.Proto.ToStruct
use srs_control.Converters.Proto.ToStruct.{struct_marker, struct_hit}
use srs_control.Data.Structs.{
  ReceiveDataHeader, MarkerData, HitData, StructData, IsHeader, reset_struct_data,
}

-- The values of the declared types: unsigned integers of 8 and 16 bits.
abbrev pub TypedMarker : MarkerData → Type 0
TypedMarker m = m.vmm_id < 2 ^ 8

pub record TypedHit (h : HitData) : Type 0 where
  pub channel_num : h.channel_num < 2 ^ 8
  pub tdc : h.tdc < 2 ^ 8
  pub offset : h.offset < 2 ^ 8
  pub vmm_id : h.vmm_id < 2 ^ 8
  pub bc_id : h.bc_id < 2 ^ 16

-- What is left of a hit and of a header.
abbrev pub with_low_adc : HitData → HitData
with_low_adc h = record h { adc = h.adc % 2 ^ 8 }

abbrev pub without_tag : ReceiveDataHeader → ReceiveDataHeader
without_tag h = record h { vmm_tag = (0, 0, 0) }

pub add_marker_data-map :
    (ms : List MarkerData) (p : ProtoData)
    → ToProto.add_marker_data ms p ≡ record p { marker_data = p.marker_data ++ map proto_marker ms }
unfolding ToProto.add_marker_data
add_marker_data-map [] p = rw append-nil
add_marker_data-map (m ∷ ms) p =
    add_marker_data-map ms (record p { marker_data = p.marker_data ++ proto_marker m ∷ [] })
    ∙ rw (append_assoc p.marker_data (proto_marker m ∷ []) (map proto_marker ms))

pub add_hit_data-map :
    (hs : List HitData) (p : ProtoData)
    → ToProto.add_hit_data hs p ≡ record p { hit_data = p.hit_data ++ map proto_hit hs }
unfolding ToProto.add_hit_data
add_hit_data-map [] p = rw append-nil
add_hit_data-map (h ∷ hs) p =
    add_hit_data-map hs (record p { hit_data = p.hit_data ++ proto_hit h ∷ [] })
    ∙ rw (append_assoc p.hit_data (proto_hit h ∷ []) (map proto_hit hs))

struct_marker-proto_marker :
    (ms : List MarkerData) → All TypedMarker ms → map struct_marker (map proto_marker ms) ≡ ms
struct_marker-proto_marker [] v = refl
struct_marker-proto_marker (m ∷ ms) v =
    ap₂ ◌∷◌ (ap (λ (n : ℕ). record { vmm_id = n; srs_timestamp = m.srs_timestamp }) (omega arith))
      (struct_marker-proto_marker ms v.1)

struct_hit-proto_hit :
    (hs : List HitData) → All TypedHit hs → map struct_hit (map proto_hit hs) ≡ map with_low_adc hs
unfolding struct_hit
struct_hit-proto_hit [] v = refl
struct_hit-proto_hit (h ∷ hs) v = ap₂ ◌∷◌ (ground arith) (struct_hit-proto_hit hs v.1)

set_marker_data-map :
    (ms : List ProtoMarker) (s : StructData)
    → ToStruct.set_marker_data ms s
      ≡ record s { marker_data = s.marker_data ++ map struct_marker ms }
unfolding ToStruct.set_marker_data
set_marker_data-map [] s = rw append-nil
set_marker_data-map (m ∷ ms) s =
    set_marker_data-map ms (record s { marker_data = s.marker_data ++ struct_marker m ∷ [] })
    ∙ rw (append_assoc s.marker_data (struct_marker m ∷ []) (map struct_marker ms))

set_hit_data-map :
    (hs : List ProtoHit) (s : StructData)
    → ToStruct.set_hit_data hs s ≡ record s { hit_data = s.hit_data ++ map struct_hit hs }
unfolding ToStruct.set_hit_data
set_hit_data-map [] s = rw append-nil
set_hit_data-map (h ∷ hs) s =
    set_hit_data-map hs (record s { hit_data = s.hit_data ++ struct_hit h ∷ [] })
    ∙ rw (append_assoc s.hit_data (struct_hit h ∷ []) (map struct_hit hs))

-- A structure of its declared types, made a message and read back into any structure, is the same
-- but for two things: the tag of the header is zero, for which the message has no field, and of
-- every `adc`, which has ten bits, only the lower eight are left.
pub convert-run :
    (s old : StructData)
    → IsHeader s.header
    → All TypedMarker s.marker_data
    → All TypedHit s.hit_data
    → ToStruct.convert (ToProto.run s) old ≡ record {
      header = without_tag s.header;
      marker_data = s.marker_data;
      hit_data = map with_low_adc s.hit_data;
    }
unfolding ToStruct.convert ToStruct.set_header ToProto.run ToProto.convert ToProto.set_header
    reset_struct_data
convert-run s old v markers hits =
    let fec : s.header.fec_id % 2 ^ 8 ≡ s.header.fec_id = omega arith in
    rw
      (
        add_marker_data-map s.marker_data,
        add_hit_data-map s.hit_data,
        set_hit_data-map,
        set_marker_data-map,
        struct_hit-proto_hit s.hit_data hits,
        struct_marker-proto_marker s.marker_data markers,
      )
      (ap
        (λ (n : ℕ). record {
          header = record s.header { vmm_tag = (0, 0, 0); fec_id = n };
          marker_data = s.marker_data;
          hit_data = map with_low_adc s.hit_data;
        })
        fec)
