-- ===== src/Readers/ProtoMsg/Tests.antt =====
-- backend/srs/readers/ProtoMsgReader.cpp on a message, with a plain coding in place of protobuf: the
-- fields in their order, after the number of markers.
use srs_control.Base.Int.{ℤ, pos}
use srs_control.Base.{
  ℕ, zero, suc, ◌≡◌, refl, ap, ap₂, ◌∙◌, Bool, true, false, List, [], ◌∷◌, length, arith,
  if◌then◌else◌,
}
use srs_control.Converters.Proto.ToProto
use srs_control.Converters.Proto.{ProtoMarker, ProtoHit, ProtoData, cleared}
use srs_control.Converters.ProtoSerializer
use srs_control.Converters.ProtoSerializer.{protobuf_converter}
use srs_control.Converters.Protobuf.{Protobuf}
use srs_control.Data.Structs.{StructData, empty_struct}
use srs_control.Readers.ProtoMsg.ReadBack.{after_message, convert-run-serialized}
use srs_control.Readers.ProtoMsg.{create, convert, convert_into}

abbrev put_hits : List ProtoHit → List ℕ
put_hits [] = []
put_hits (h ∷ hs) =
    (if h.is_over_threshold then 1 else 0)
    ∷ h.channel_num
    ∷ h.tdc
    ∷ h.offset
    ∷ h.vmm_id
    ∷ h.adc
    ∷ h.bc_id
    ∷ put_hits hs

abbrev put_markers : List ProtoMarker → List ℕ → List ℕ
put_markers [] rest = rest
put_markers (m ∷ ms) rest = m.vmm_id ∷ m.srs_timestamp ∷ put_markers ms rest

abbrev put : ProtoData → List ℕ
put m =
    m.header.frame_counter
    ∷ m.header.fec_id
    ∷ m.header.udp_timestamp
    ∷ m.header.overflow
    ∷ length m.marker_data
    ∷ put_markers m.marker_data (put_hits m.hit_data)

abbrev flag : ℕ → Bool
flag zero = false
flag (suc _) = true

abbrev get_hits : List ℕ → List ProtoHit
get_hits (a ∷ b ∷ c ∷ d ∷ e ∷ f ∷ g ∷ rest) =
    record {
      is_over_threshold = flag a;
      channel_num = b;
      tdc = c;
      offset = d;
      vmm_id = e;
      adc = f;
      bc_id = g;
    }
    ∷ get_hits rest
get_hits _ = []

abbrev get_markers : (count : ℕ) → List ℕ → List ProtoMarker × List ℕ
get_markers (suc n) (a ∷ b ∷ rest) =
    let (ms, rest) = get_markers n rest in (record { vmm_id = a; srs_timestamp = b } ∷ ms, rest)
get_markers _ rest = ([], rest)

abbrev get : ProtoData → List ℕ → ℤ → Bool × ProtoData
get old (a ∷ b ∷ c ∷ d ∷ n ∷ rest) (pos _) =
    let (markers, rest) = get_markers n rest in
    (
      true,
      record {
        header = record { frame_counter = a; fec_id = b; udp_timestamp = c; overflow = d };
        marker_data = markers;
        hit_data = get_hits rest;
      },
    )
get old _ _ = (false, old)

flag-number : (b : Bool) → flag (if b then 1 else 0) ≡ b
flag-number true = refl
flag-number false = refl

get_hits-put_hits : (hs : List ProtoHit) → get_hits (put_hits hs) ≡ hs
get_hits-put_hits [] = refl
get_hits-put_hits (h ∷ hs) =
    ap₂ (λ (b : Bool) (rest : List ProtoHit). record h { is_over_threshold = b } ∷ rest)
      (flag-number h.is_over_threshold) (get_hits-put_hits hs)

get_markers-put_markers :
    (ms : List ProtoMarker) (rest : List ℕ)
    → get_markers (length ms) (put_markers ms rest) ≡ (ms, rest)
get_markers-put_markers [] rest = refl
get_markers-put_markers (m ∷ ms) rest =
    ap (λ (r : List ProtoMarker × List ℕ). (m ∷ r.0, r.1)) (get_markers-put_markers ms rest)

get-put : (m old : ProtoData) (size : ℕ) → get old (put m) (pos size) ≡ (true, m)
get-put m old size =
    let markers = get_markers-put_markers m.marker_data (put_hits m.hit_data) in
    ap
      (λ (r : List ProtoMarker × List ℕ).
        (true, record m { marker_data = r.0; hit_data = get_hits r.1 }))
      markers
    ∙ ap (λ (hits : List ProtoHit). (true, record m { hit_data = hits }))
        (get_hits-put_hits m.hit_data)

abbrev plain : Protobuf
plain = record {
  serialize = put;
  serialize_delimited = λ m. length (put m) ∷ put m;
  gzip = λ level bytes. bytes;
  parse = get;
  parse-serialize = λ m v h. get-put m cleared (length (put m));
}

abbrev sent : StructData
sent = record {
  header = record {
    frame_counter = 7;
    vmm_tag = (b'V', b'M', b'3');
    fec_id = 2;
    udp_timestamp = 123456;
    overflow = 0;
  };
  marker_data = record { vmm_id = 4; srs_timestamp = 987654321 } ∷ [];
  hit_data =
      record {
        is_over_threshold = true;
        channel_num = 33;
        tdc = 200;
        offset = 17;
        vmm_id = 9;
        adc = 777;
        bc_id = 3001;
      }
      ∷ [];
}

abbrev message : List ℕ
message =
    (ProtoSerializer.run (protobuf_converter plain) ((1 ∷ []) ∷ (2 ∷ []) ∷ []) (ToProto.run sent)
      1).1

convert-run-serialized_example :
    ((convert_into plain create message empty_struct).1 ≡ after_message sent)
    × ((convert plain create message).1 ≡ after_message sent)
unfolding ToProto.run ToProto.convert ToProto.set_header ToProto.add_hit_data
    ToProto.add_marker_data
convert-run-serialized_example =
    convert-run-serialized plain create empty_struct sent ((1 ∷ []) ∷ (2 ∷ []) ∷ []) 1 (omega arith)
      (omega arith) (omega arith) (omega arith) (omega arith)
