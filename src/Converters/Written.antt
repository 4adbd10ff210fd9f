-- ===== src/Converters/Written.antt =====
-- What StructSerializer.cpp writes: on which frames it succeeds, the bytes of each line, and what
-- the loop over the hits adds when there is more than one line.
use mathlib.Core.List.{flatten, append_assoc, append-nil}
use srs_control.Base.Expected.{value, has_value}
use srs_control.Base.{
  ℕ, zero, suc, ◌+◌, ◌^◌, ◌<◌, ◌≡◌, refl, ap, ◌∙◌, ◌↔◌, true, List, [], ◌∷◌, ◌++◌, map, arith,
  length, set, get_or,
}
use srs_control.Converters.Elements.{
  hit_to_compact-eq, marker_to_compact-eq, hit_fields, marker_fields,
}
use srs_control.Converters.StructSerializer.{
  StructSerializer, hit_to_compact, marker_to_compact, fill_zero, compact_to_vector, serialize_hits,
  serialize_markers, put_header, convert,
}
use srs_control.Converters.Wire.{
  hit_element, marker_element, element_bytes, body_bytes, compact_to_vector_lem,
}
use srs_control.Converters.Zpp.{Zpp}
use srs_control.Data.Compact.{hit_word, marker_word}
use srs_control.Data.Structs.{MarkerData, HitData, StructData, FitsHit, FitsMarker, All}

-- `hit_to_compact` accepts exactly the hits that fit the bit fields.
hit_to_compact_iff :
    (h : HitData) → h.tdc < 2 ^ 8 → (has_value (hit_to_compact h) ≡ true) ↔ FitsHit h
unfolding hit_to_compact
hit_to_compact_iff h t = (ground arith, λ f. ground arith)

-- `marker_to_compact` accepts exactly the markers that fit them.
pub marker_to_compact_iff :
    (m : MarkerData) → (has_value (marker_to_compact m) ≡ true) ↔ FitsMarker m
unfolding marker_to_compact
marker_to_compact_iff m = (ground arith, λ f. ground arith)

set-set : (bs : List (List ℕ)) (i : ℕ) (x y : List ℕ) → set (set bs i x) i y ≡ set bs i y
set-set [] i x y = refl
set-set (b ∷ bs) zero x y = refl
set-set (b ∷ bs) (suc i) x y = ap (◌∷◌ b) (set-set bs i x y)

module _ (z : Zpp) (p line : ℕ) where
  -- What the loop over the hits writes: for each hit every buffer, that of the line set to the hit.
  abbrev pub hits_bytes : List (List ℕ) → List HitData → List ℕ
  hits_bytes buffers [] = []
  hits_bytes buffers (h ∷ hs) =
      flatten (set buffers line (element_bytes (hit_element p h))) ++ hits_bytes buffers hs

  hits_bytes-set :
      (hs : List HitData) (buffers : List (List ℕ)) (x : List ℕ)
      → hits_bytes (set buffers line x) hs ≡ hits_bytes buffers hs
  hits_bytes-set [] buffers x = refl
  hits_bytes-set (h ∷ hs) buffers x =
      rw (set-set buffers line x (element_bytes (hit_element p h)), hits_bytes-set hs buffers x)

  pub serialize_hits_step :
      (h : HitData) (hs : List HitData) (buffers : List (List ℕ)) (out : List ℕ)
      → FitsHit h
      → let next = set buffers line (element_bytes (hit_element p h)) in
        serialize_hits z p line buffers out (h ∷ hs)
        ≡ serialize_hits z p line next (out ++ flatten next) hs
  unfolding serialize_hits fill_zero
  serialize_hits_step h hs buffers out f = rw (
    (hit_to_compact-eq h f),
    serialize_hits,
    set-set buffers line (map (λ _. 0) (get_or buffers line []))
        (compact_to_vector z p (hit_word p (hit_fields h))),
    compact_to_vector_lem z p (hit_word p (hit_fields h)),
  )

  pub serialize_hits_lem :
      (hs : List HitData) (buffers : List (List ℕ)) (out : List ℕ)
      → All FitsHit hs
      → (b : List (List ℕ)) × (serialize_hits z p line buffers out hs
          ≡ (b, out ++ hits_bytes buffers hs, value tt))
  unfolding serialize_hits
  serialize_hits_lem [] buffers out f = (buffers, rw append-nil)
  serialize_hits_lem (h ∷ hs) buffers out f =
      let next = set buffers line (element_bytes (hit_element p h)) in
      let (b, e) = serialize_hits_lem hs next (out ++ flatten next) f.1 in
      (
        b,
        serialize_hits_step h hs buffers out f.0
            ∙ e
            ∙ rw (
              hits_bytes-set hs buffers (element_bytes (hit_element p h)),
              append_assoc out (flatten next) (hits_bytes buffers hs),
            ),
      )

  pub serialize_markers_step :
      (m : MarkerData) (ms : List MarkerData) (buffers : List (List ℕ)) (out : List ℕ)
      → FitsMarker m
      → let bytes = element_bytes (marker_element p m) in
        serialize_markers z p line buffers out (m ∷ ms)
        ≡ serialize_markers z p line (set buffers line bytes) (out ++ bytes) ms
  unfolding serialize_markers fill_zero
  serialize_markers_step m ms buffers out f = rw (
    (marker_to_compact-eq m f),
    serialize_markers,
    set-set buffers line (map (λ _. 0) (get_or buffers line []))
        (compact_to_vector z p (marker_word p (marker_fields m))),
    compact_to_vector_lem z p (marker_word p (marker_fields m)),
  )

  pub serialize_markers_lem :
      (ms : List MarkerData) (buffers : List (List ℕ)) (out : List ℕ)
      → All FitsMarker ms
      → (b : List (List ℕ)) × (serialize_markers z p line buffers out ms
          ≡ (b, out ++ body_bytes (map (marker_element p) ms), value tt))
  unfolding serialize_markers
  serialize_markers_lem [] buffers out f = (buffers, rw append-nil)
  serialize_markers_lem (m ∷ ms) buffers out f =
      let bytes = element_bytes (marker_element p m) in
      let (b, e) = serialize_markers_lem ms (set buffers line bytes) (out ++ bytes) f.1 in
      (
        b,
        serialize_markers_step m ms buffers out f.0
            ∙ e
            ∙ rw (append_assoc out bytes (body_bytes (map (marker_element p) ms))),
      )

  -- On a frame that fits the wire format `convert` returns the number of elements, and the line's
  -- output holds the header, what the loop over the hits writes and the markers.
  pub convert_lem :
      (s : StructSerializer) (input : StructData)
      → All FitsHit input.hit_data
      → All FitsMarker input.marker_data
      → ((convert z p s input line).1 ≡ value (length input.marker_data + length input.hit_data))
        × ((convert z p s input line).0.output_data
            ≡ set s.output_data line (
                z.write (get_or s.output_data line []) (
                  put_header z p input.header
                  ++ (hits_bytes (set s.compact_data_buffer line []) input.hit_data
                      ++ body_bytes (map (marker_element p) input.marker_data)))))
  unfolding convert
  convert_lem s input f g =
      let start = set s.compact_data_buffer line [] in
      let (b, e) = serialize_hits_lem input.hit_data start (put_header z p input.header) f in
      let (c, k) =
        serialize_markers_lem input.marker_data b
          (put_header z p input.header ++ hits_bytes start input.hit_data) g in
      (
        rw (e, k),
        rw (e, k)
            (ap (λ bs. set s.output_data line (z.write (get_or s.output_data line []) bs))
              (append_assoc (put_header z p input.header) (hits_bytes start input.hit_data)
                (body_bytes (map (marker_element p) input.marker_data)))),
      )
