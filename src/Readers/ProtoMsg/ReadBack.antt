-- ===== src/Readers/ProtoMsg/ReadBack.antt =====
-- backend/srs/readers/ProtoMsgReader.cpp on the bytes of backend/srs/converters/ProtoSerializer.cpp.
use srs_control.Base.Int.{pos}
use srs_control.Base.{
  ℕ, zero, suc, ◌^◌, ◌<◌, ◌≡◌, refl, ap, ◌∙◌, Bool, List, [], ◌∷◌, ◌++◌, length, set, get_or, map,
  All, arith,
}
use srs_control.Converters.Buffers.{length-set}
use srs_control.Converters.Proto.RoundTrip.{
  TypedMarker, TypedHit, with_low_adc, without_tag, convert-run, add_marker_data-map,
  add_hit_data-map,
}
use srs_control.Converters.Proto.ToProto
use srs_control.Converters.Proto.ToProto.{proto_marker, proto_hit}
use srs_control.Converters.Proto.ToStruct
use srs_control.Converters.Proto.{ProtoData, cleared}
use srs_control.Converters.ProtoSerializer
use srs_control.Converters.ProtoSerializer.{protobuf_converter, to_int, deserialize}
use srs_control.Converters.Protobuf.{IsProtoMarker, IsProtoHit, IsProto, Protobuf}
use srs_control.Data.Structs.{HitData, MarkerData, StructData, IsHeader, FitsMarker, FitsHit}
use srs_control.Readers.ProtoMsg.{ProtoMsg, convert_into, convert}

-- What a structure is after it was a message.
abbrev pub after_message : StructData → StructData
after_message s = record {
  header = without_tag s.header;
  marker_data = s.marker_data;
  hit_data = map with_low_adc s.hit_data;
}

fits-TypedMarker : (ms : List MarkerData) → All FitsMarker ms → All TypedMarker ms
fits-TypedMarker [] f = tt
fits-TypedMarker (m ∷ ms) f = (omega arith, fits-TypedMarker ms f.1)

fits-TypedHit : (hs : List HitData) → All FitsHit hs → All TypedHit hs
fits-TypedHit [] f = tt
fits-TypedHit (h ∷ hs) f = (omega arith, fits-TypedHit hs f.1)

proto_marker-IsProto :
    (ms : List MarkerData) → All FitsMarker ms → All IsProtoMarker (map proto_marker ms)
proto_marker-IsProto [] f = tt
proto_marker-IsProto (m ∷ ms) f = (omega arith, proto_marker-IsProto ms f.1)

proto_hit-IsProto : (hs : List HitData) → All FitsHit hs → All IsProtoHit (map proto_hit hs)
proto_hit-IsProto [] f = tt
proto_hit-IsProto (h ∷ hs) f = (omega arith, proto_hit-IsProto hs f.1)

run-IsProto :
    (s : StructData)
    → IsHeader s.header
    → All FitsMarker s.marker_data
    → All FitsHit s.hit_data
    → IsProto (ToProto.run s)
unfolding ToProto.run ToProto.convert ToProto.set_header
run-IsProto s v f g =
    rw (add_marker_data-map s.marker_data, add_hit_data-map s.hit_data)
      (record {
        header = omega arith;
        marker_data = proto_marker-IsProto s.marker_data f;
        hit_data = proto_hit-IsProto s.hit_data g;
      })

to_int-pos : (n : ℕ) → n < 2 ^ 31 → to_int n ≡ pos n
unfolding to_int
to_int-pos n h = ground arith

get_or-set :
    (xs : List (List ℕ)) (i : ℕ) (x : List ℕ) → i < length xs → get_or (set xs i x) i [] ≡ x
get_or-set [] i x h = absurd (omega arith)
get_or-set (y ∷ ys) zero x h = refl
get_or-set (y ∷ ys) (suc i) x h = get_or-set ys i x (omega arith)

module _ (lib : Protobuf) where
  run-serialize :
      (outputs : List (List ℕ)) (m : ProtoData) (line : ℕ)
      → line < length outputs
      → (ProtoSerializer.run (protobuf_converter lib) outputs m line).1 ≡ lib.serialize m
  unfolding ProtoSerializer.run protobuf_converter
  run-serialize outputs m line h =
      let cleared = set outputs line [] in
      let long : line < length cleared = omega (arith, length-set outputs line []) in
      get_or-set cleared line (protobuf_converter lib m (get_or cleared line [])) long
      ∙ ap (λ old. old ++ lib.serialize m) (get_or-set outputs line [] h)

  deserialize-serialize :
      (m old : ProtoData)
      → IsProto m
      → length (lib.serialize m) < 2 ^ 31
      → deserialize lib (lib.serialize m) old ≡ m
  unfolding deserialize
  deserialize-serialize m old v h =
      let bytes = lib.serialize m in
      ap (λ n. (lib.parse cleared bytes n).1) (to_int-pos (length bytes) h)
      ∙ ap (λ (r : Bool × ProtoData). r.1) (lib.parse-serialize m v h)

  -- What the serializer writes for the message of a structure of the wire format, on any of its
  -- lines, the reader reads back, into a structure of the caller and into its own, whatever they
  -- held: the same structure, but for the tag of its header and the upper bits of every adc. The
  -- bytes of the message are fewer than 2^31.
  pub convert-run-serialized :
      (reader : ProtoMsg) (old s : StructData) (outputs : List (List ℕ)) (line : ℕ)
      → line < length outputs
      → IsHeader s.header
      → All FitsMarker s.marker_data
      → All FitsHit s.hit_data
      → length (lib.serialize (ToProto.run s)) < 2 ^ 31
      → let msg = (ProtoSerializer.run (protobuf_converter lib) outputs (ToProto.run s) line).1 in
        ((convert_into lib reader msg old).1 ≡ after_message s)
        × ((convert lib reader msg).1 ≡ after_message s)
  unfolding convert_into convert
  convert-run-serialized reader old s outputs line h v f g short =
      let m = ToProto.run s in
      let bytes = run-serialize outputs m line h in
      let read =
        ap (λ msg. deserialize lib msg reader.proto_data) bytes
        ∙ deserialize-serialize m reader.proto_data (run-IsProto s v f g) short in
      let markers = fits-TypedMarker s.marker_data f in
      let hits = fits-TypedHit s.hit_data g in
      (
        ap (λ p. ToStruct.convert p old) read ∙ convert-run s old v markers hits,
        ap (λ p. ToStruct.convert p reader.struct_data) read
            ∙ convert-run s reader.struct_data v markers hits,
      )
