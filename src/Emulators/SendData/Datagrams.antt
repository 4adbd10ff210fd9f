-- ===== src/Emulators/SendData/Datagrams.antt =====
-- backend/srs/emulators/FECEmulator.cpp: the output of the serializer from one frame to the next,
-- which is not cleared: behind a frame stand the elements that earlier ones left.
use mathlib.Core.List.{append_assoc}
use srs_control.Base.Expected.{Expected, value}
use srs_control.Base.{
  ℕ, zero, suc, ◌+◌, ◌*◌, ◌^◌, ◌<◌, ◌≡◌, refl, ap, ◌∙◌, sym, List, [], ◌∷◌, ◌++◌, length, arith,
  drop, drop-drop, drop-append, get_or, All, All-append, length-append,
}
use srs_control.Converters.Buffers.{length-convert}
use srs_control.Converters.Lines.{convert_one_line, written_over}
use srs_control.Converters.Read.{elements-lt}
use srs_control.Converters.StructSerializer
use srs_control.Converters.StructSerializer.{StructSerializer, put_header}
use srs_control.Converters.Wire.{
  elements, element_bytes, body_bytes, body_bytes-append, frame_bytes, length-element_bytes,
  length-put_header, length-body_bytes,
}
use srs_control.Converters.Zpp.{Zpp}
use srs_control.Data.Structs.{StructData, FitsHit, FitsMarker}

-- The serializer has one line, as the constructor makes it, whose output holds these elements behind
-- its first sixteen bytes.
pub record IsOutput (es : List ℕ) (s : StructSerializer) : Type 0 where
  pub output_lines : length s.output_data ≡ 1
  pub buffer_lines : length s.compact_data_buffer ≡ 1
  pub bytes : drop 16 (get_or s.output_data 0 []) ≡ body_bytes es
  pub fits : All (λ e. e < 2 ^ 48) es

drop-body_bytes : (k : ℕ) (es : List ℕ) → drop (6 * k) (body_bytes es) ≡ body_bytes (drop k es)
drop-body_bytes zero es = refl
drop-body_bytes (suc k) [] = ap (λ n. drop n []) six
  where
    six : 6 * suc k ≡ suc (5 + 6 * k)
    six = omega arith
drop-body_bytes (suc k) (e ∷ es) =
    ap (λ n. drop n (element_bytes e ++ body_bytes es)) six
    ∙ sym (drop-drop (6 * k) 6 (element_bytes e ++ body_bytes es))
    ∙ ap (drop (6 * k)) (drop-append (element_bytes e) (body_bytes es) 6 (length-element_bytes e))
    ∙ drop-body_bytes k es
  where
    six : 6 * suc k ≡ 6 + 6 * k
    six = omega arith

All-drop : (k : ℕ) (es : List ℕ) → All (λ e. e < 2 ^ 48) es → All (λ e. e < 2 ^ 48) (drop k es)
All-drop zero es h = h
All-drop (suc k) [] h = tt
All-drop (suc k) (e ∷ es) h = All-drop k es h.1

module _ (z : Zpp) (p : ℕ) (f : StructData) (es : List ℕ) where
  -- The elements that an output of these elements keeps behind a frame.
  abbrev pub left_behind : List ℕ
  left_behind = drop (length (elements p f)) es

  abbrev pub datagram : List ℕ
  datagram = put_header z p f.header ++ body_bytes (elements p f ++ left_behind)

  length-frame_bytes : length (frame_bytes z p f) ≡ 16 + 6 * length (elements p f)
  length-frame_bytes = omega (
    arith,
    length-append (put_header z p f.header) (body_bytes (elements p f)),
    length-put_header z p f.header,
    length-body_bytes (elements p f),
  )

  written_over-datagram :
      (old : List ℕ) → drop 16 old ≡ body_bytes es → written_over old (frame_bytes z p f) ≡ datagram
  written_over-datagram old e =
      let k = length (elements p f) in
      ap (λ bs. frame_bytes z p f ++ bs)
        (ap (λ n. drop n old) length-frame_bytes
          ∙ sym (drop-drop (6 * k) 16 old)
          ∙ ap (drop (6 * k)) e
          ∙ drop-body_bytes k es)
      ∙ append_assoc (put_header z p f.header) (body_bytes (elements p f)) (body_bytes left_behind)
      ∙ ap (λ bs. put_header z p f.header ++ bs)
          (sym (body_bytes-append (elements p f) left_behind))

  module _ (q : p < 2 ^ 16) (hits : All FitsHit f.hit_data) (markers : All FitsMarker f.marker_data)
      (fits : All (λ e. e < 2 ^ 48) es) where
    pub sent-lt : All (λ e. e < 2 ^ 48) (elements p f ++ left_behind)
    sent-lt =
        All-append (λ e. e < 2 ^ 48) (elements p f) left_behind
          (elements-lt p q f.hit_data f.marker_data hits markers)
          (All-drop (length (elements p f)) es fits)

    abbrev IsConverted : StructSerializer × Expected StructSerializer.Error ℕ → Type 0
    IsConverted r =
        (r.1 ≡ value (length f.marker_data + length f.hit_data))
        × (r.0.output_data ≡ datagram ∷ [])
        × IsOutput (elements p f ++ left_behind) r.0

    convert_lines :
        (outs buffers : List (List ℕ))
        → length outs ≡ 1
        → length buffers ≡ 1
        → drop 16 (get_or outs 0 []) ≡ body_bytes es
        → IsConverted (
            StructSerializer.convert z p
              (record { output_data = outs; compact_data_buffer = buffers })
              f
              0)
    convert_lines (old ∷ []) (buffer ∷ []) h k b =
        let (returned, written) = convert_one_line z p old buffer f hits markers in
        let all_written = written ∙ ap (λ bs. bs ∷ []) (written_over-datagram old b) in
        (
          returned,
          all_written,
          record {
            output_lines = ap length all_written;
            buffer_lines =
                length-convert z p 0
                  (record { output_data = old ∷ []; compact_data_buffer = buffer ∷ [] }) f hits
                  markers;
            bytes =
                ap (λ outs. drop 16 (get_or outs 0 [])) all_written
                ∙ drop-append (put_header z p f.header) (body_bytes (elements p f ++ left_behind))
                    16 (length-put_header z p f.header);
            fits = sent-lt;
          },
        )
    convert_lines [] buffers h k b = absurd (omega arith)
    convert_lines (_ ∷ _ ∷ _) buffers h k b = absurd (omega arith)
    convert_lines (_ ∷ []) [] h k b = absurd (omega arith)
    convert_lines (_ ∷ []) (_ ∷ _ ∷ _) h k b = absurd (omega arith)

    pub convert-IsOutput :
        (s : StructSerializer) → IsOutput es s → IsConverted (StructSerializer.convert z p s f 0)
    convert-IsOutput s i =
        convert_lines s.output_data s.compact_data_buffer i.output_lines i.buffer_lines i.bytes
