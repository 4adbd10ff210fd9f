-- ===== src/Converters/Lines.antt =====
-- StructSerializer.cpp with one pipeline line, as the emulator and the unit tests create it, and
-- with two, where the loop over the hits also writes the buffer of the other line.
use mathlib.Core.List.{flatten, append-nil}
use srs_control.Base.Expected.{value}
use srs_control.Base.{
  ℕ, ◌+◌, ◌*◌, ◌≡◌, refl, ap, ◌∙◌, sym, List, [], ◌∷◌, ◌++◌, map, arith, length, length-append,
  length-drop, ◌-◌, drop, length-map, get_or,
}
use srs_control.Converters.StructSerializer.{StructSerializer, put_header, convert}
use srs_control.Converters.Wire.{
  hit_element, marker_element, elements, element_bytes, body_bytes, body_bytes-append, frame_bytes,
  length-element_bytes, length-body_bytes,
}
use srs_control.Converters.Written.{hits_bytes, convert_lem}
use srs_control.Converters.Zpp.{Zpp}
use srs_control.Data.Structs.{HitData, StructData, FitsHit, FitsMarker, All}

hits_bytes_one :
    (z : Zpp) (p : ℕ) (b : List ℕ) (hs : List HitData)
    → hits_bytes z p 0 (b ∷ []) hs ≡ body_bytes (map (hit_element p) hs)
unfolding flatten
hits_bytes_one z p b [] = refl
hits_bytes_one z p b (h ∷ hs) =
    rw (append-nil (element_bytes (hit_element p h)), hits_bytes_one z p b hs)

-- An output after these bytes: of an old one that is longer, the end is left.
abbrev pub written_over : (old new : List ℕ) → List ℕ
written_over old new = new ++ drop (length new) old

-- With one line, a frame that fits the wire format is written out in it: header, hits, markers.
-- The result is the number of elements. Of an old output that is longer, the end is left behind the
-- frame.
pub convert_one_line :
    (z : Zpp) (p : ℕ) (old buffer : List ℕ) (input : StructData)
    → All FitsHit input.hit_data
    → All FitsMarker input.marker_data
    → let s : StructSerializer = record {
      output_data = old ∷ [];
      compact_data_buffer = buffer ∷ [];
    } in
      ((convert z p s input 0).1 ≡ value (length input.marker_data + length input.hit_data))
      × ((convert z p s input 0).0.output_data ≡ written_over old (frame_bytes z p input) ∷ [])
convert_one_line z p old buffer input f g =
    let s : StructSerializer = record {
      output_data = old ∷ [];
      compact_data_buffer = buffer ∷ [];
    } in
    let (returned, written) = convert_lem z p 0 s input f g in
    (
      returned,
      written
          ∙ ap (λ bs. z.write old (put_header z p input.header ++ bs) ∷ [])
              (ap (λ bs. bs ++ body_bytes (map (marker_element p) input.marker_data))
                  (hits_bytes_one z p [] input.hit_data)
                ∙ sym (
                    body_bytes-append (map (hit_element p) input.hit_data)
                      (map (marker_element p) input.marker_data)))
          ∙ ap (λ bs. bs ∷ []) (z.write-eq old (frame_bytes z p input)),
    )

length-hits_bytes_two :
    (z : Zpp) (p : ℕ) (b other : List ℕ) (hs : List HitData)
    → length (hits_bytes z p 0 (b ∷ other ∷ []) hs) ≡ (6 + length other) * length hs
unfolding flatten
length-hits_bytes_two z p b other [] = omega arith
length-hits_bytes_two z p b other (h ∷ hs) =
    let hit = element_bytes (hit_element p h) in
    let rest = hits_bytes z p 0 (b ∷ other ∷ []) hs in
    grind (
      arith,
      length-append (hit ++ (other ++ [])) rest,
      length-append hit (other ++ []),
      length-append other [],
      length-element_bytes (hit_element p h),
      length-hits_bytes_two z p b other hs,
    )

-- With two lines, what is written to the first is longer than the frame by the other line's buffer,
-- once for each hit; its output has that length, or its old one if that is more.
pub length-convert_two_lines :
    (z : Zpp) (p : ℕ) (old₀ old₁ buffer other : List ℕ) (input : StructData)
    → All FitsHit input.hit_data
    → All FitsMarker input.marker_data
    → let s : StructSerializer = record {
      output_data = old₀ ∷ old₁ ∷ [];
      compact_data_buffer = buffer ∷ other ∷ [];
    } in
      let written = length (frame_bytes z p input) + length other * length input.hit_data in
      length (get_or (convert z p s input 0).0.output_data 0 []) ≡ written + (length old₀ - written)
length-convert_two_lines z p old₀ old₁ buffer other input f g =
    let s : StructSerializer = record {
      output_data = old₀ ∷ old₁ ∷ [];
      compact_data_buffer = buffer ∷ other ∷ [];
    } in
    let header = put_header z p input.header in
    let hits = hits_bytes z p 0 ([] ∷ other ∷ []) input.hit_data in
    let markers = map (marker_element p) input.marker_data in
    let all = header ++ (hits ++ body_bytes markers) in
    omega (
      arith,
      ap length (z.write-eq old₀ all),
      length-append all (drop (length all) old₀),
      length-drop (length all) old₀,
      ap (λ out. length (get_or out 0 [])) (convert_lem z p 0 s input f g).1,
      length-append header (hits ++ body_bytes markers),
      length-append hits (body_bytes markers),
      length-hits_bytes_two z p [] other input.hit_data,
      length-append header (body_bytes (elements p input)),
      length-body_bytes (elements p input),
      length-append (map (hit_element p) input.hit_data) markers,
      length-map input.hit_data (hit_element p),
      length-body_bytes markers,
    )
