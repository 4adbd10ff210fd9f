-- ===== src/Converters/Total.antt =====
-- StructDeserializer.cpp on arbitrary bytes: which of its three answers it gives, and that reading
-- never throws.
use srs_control.Base.Digits.{AreBytes, drop-AreBytes}
use srs_control.Base.Expected.{value, unexpected}
use srs_control.Base.{
  ℕ, ◌+◌, ◌-◌, ◌*◌, ◌/◌, ◌<◌, ◌≤◌, ◌≡◌, ◌∙◌, List, [], ◌∷◌, some, arith, length, length-append,
  length-map, length-drop, drop, dec_le, dec_lt, ◌⊎◌, inl, inr,
}
use srs_control.Converters.StructDeserializer.{
  size_too_small, cannot_read_header, add_element, array_to_hit, array_to_marker,
  translate_raw_data, byte_reverse_data_sq, get_header, get_elements, get_frame, read_frame,
  convert,
}
use srs_control.Converters.Header.{get_header_total}
use srs_control.Converters.Body.{get_elements_total}
use srs_control.Converters.Zpp.{Zpp}
use srs_control.Data.Structs.{ReceiveDataHeader, StructData}
use srs_control.Utils.ByteSwap.{byte_swap}

-- Every element becomes a hit or a marker.
length-translate_raw_data :
    (es : List ℕ) (s : StructData)
    → length (translate_raw_data s es).hit_data + length (translate_raw_data s es).marker_data
      ≡ length s.hit_data + length s.marker_data + length es
unfolding translate_raw_data add_element
length-translate_raw_data [] s = omega arith
length-translate_raw_data (e ∷ es) s = ground (
  arith,
  length-translate_raw_data es (add_element s e),
  length-append s.hit_data (array_to_hit e ∷ []),
  length-append s.marker_data (array_to_marker e ∷ []),
)

module _ (z : Zpp) (n : ℕ) (bs rest es : List ℕ) (header : ReceiveDataHeader)
    (e : get_header z bs ≡ some (header, rest)) (k : get_elements z n rest ≡ some es) where
  get_frame_step : get_frame z n bs ≡ some (header, es)
  unfolding get_frame
  get_frame_step = rw (e, get_frame, k)

  pub read_frame_step :
      (output : StructData)
      → read_frame z n bs output
        ≡ some (
            value (
              translate_raw_data (record output { header = header }) (byte_reverse_data_sq es),
              byte_reverse_data_sq es,
            ))
  unfolding read_frame
  read_frame_step output = rw (get_frame_step, read_frame)

pub length-reversed : (es : List ℕ) → length (byte_reverse_data_sq es) ≡ length es
unfolding byte_reverse_data_sq
length-reversed es = length-map es (byte_swap 48)

read_frame_total :
    (z : Zpp) (n : ℕ) (bs : List ℕ) (output : StructData)
    → 16 + 6 * n ≤ length bs
    → AreBytes bs
    → (s : StructData) × (body : List ℕ) × (read_frame z n bs output ≡ some (value (s, body)))
      × (length body ≡ n)
      × (length s.hit_data + length s.marker_data
          ≡ length output.hit_data + length output.marker_data + n)
unfolding read_frame get_frame
read_frame_total z n bs output long h =
    let (header, e, _, _) = get_header_total z bs h 0 (omega arith) in
    let (es, k, len, _, _) =
      get_elements_total z n (drop 16 bs) (omega (arith, length-drop 16 bs))
        (drop-AreBytes 16 bs h) in
    let body = byte_reverse_data_sq es in
    let start : StructData = record output { header = header } in
    (
      translate_raw_data start body,
      body,
      read_frame_step z n bs (drop 16 bs) es header e k output,
      length-reversed es ∙ len,
      omega (arith, length-translate_raw_data body start, length-reversed es, len),
    )

-- Up to 16 bytes, or up to 21, are refused, each with its message. Anything longer is read without
-- an exception: there are as many elements as whole groups of six bytes after the header, and each
-- of them is a hit or a marker of the result.
pub convert_total :
    (z : Zpp) (bs : List ℕ) (output : StructData)
    → AreBytes bs
    → ((length bs ≤ 16) × (convert z bs output ≡ some (unexpected size_too_small)))
      ⊎ ((16 < length bs)
          × (length bs < 22)
          × (convert z bs output ≡ some (unexpected cannot_read_header)))
      ⊎ ((22 ≤ length bs)
          × ((s : StructData) × (body : List ℕ) × (convert z bs output ≡ some (value (s, body)))
              × (length body ≡ (length bs - 16) / 6)
              × (length s.hit_data + length s.marker_data
                  ≡ length output.hit_data + length output.marker_data + (length bs - 16) / 6)))
unfolding convert
convert_total z bs output h = elim (dec_le (length bs) 16) [
  | yes short ↦ inl (short, ground arith)
  | no long ↦ inr (elim (dec_lt (length bs) 22) [
    | yes short ↦ inl (omega arith, short, ground arith)
    | no longer ↦
        let count = (length bs - 16) / 6 in
        let (s, body, e, n_body, n_elements) = read_frame_total z count bs output (omega arith) h in
        inr (omega arith, (s, body, ground (arith, e), n_body, n_elements))
  ])
]
