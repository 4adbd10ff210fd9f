-- ===== src/Sinks/Json/Columns.antt =====
-- backend/srs/sinks/JsonWriter.cpp: the columns hold the hits and the markers.
use mathlib.Core.List.{append-nil, append_assoc}
use srs_control.Base.{
  ℕ, ◌≡◌, refl, ap, ap₂, ◌∙◌, Bool, true, false, not, List, [], ◌∷◌, ◌++◌, map, length, ◌==◌,
}
use srs_control.Data.Structs.{HitData, MarkerData, StructData}
use srs_control.Sinks.Json.{
  HitColumns, MarkerColumns, CompactExportData, no_hits, no_markers, number_of, push_hit, push_hits,
  clear_hits, fill_hit_data, push_marker, push_markers, clear_markers, fill_marker_data, set_value,
}

-- The columns, independently of how they are filled.
abbrev pub hit_columns : List HitData → HitColumns
hit_columns hits = record {
  is_over_threshold = map (λ (h : HitData). number_of h.is_over_threshold) hits;
  channel_num = map (λ (h : HitData). h.channel_num) hits;
  tdc = map (λ (h : HitData). h.tdc) hits;
  offset = map (λ (h : HitData). h.offset) hits;
  vmm_id = map (λ (h : HitData). h.vmm_id) hits;
  adc = map (λ (h : HitData). h.adc) hits;
  bc_id = map (λ (h : HitData). h.bc_id) hits;
}

abbrev pub marker_columns : List MarkerData → MarkerColumns
marker_columns markers = record {
  vmm_id = map (λ (m : MarkerData). m.vmm_id) markers;
  srs_timestamp = map (λ (m : MarkerData). m.srs_timestamp) markers;
}

-- Columns one below the other.
abbrev below : HitColumns → HitColumns → HitColumns
below c d = record {
  is_over_threshold = c.is_over_threshold ++ d.is_over_threshold;
  channel_num = c.channel_num ++ d.channel_num;
  tdc = c.tdc ++ d.tdc;
  offset = c.offset ++ d.offset;
  vmm_id = c.vmm_id ++ d.vmm_id;
  adc = c.adc ++ d.adc;
  bc_id = c.bc_id ++ d.bc_id;
}

push_hits-below :
    (c : HitColumns) (hits : List HitData) → push_hits c hits ≡ below c (hit_columns hits)
unfolding push_hits push_hit
push_hits-below c [] = simp append-nil
push_hits-below c (h ∷ hits) = push_hits-below (push_hit c h) hits ∙ simp append_assoc

push_markers-columns :
    (c : MarkerColumns) (markers : List MarkerData)
    → push_markers c markers ≡ record {
      vmm_id = c.vmm_id ++ (marker_columns markers).vmm_id;
      srs_timestamp = c.srs_timestamp ++ (marker_columns markers).srs_timestamp;
    }
unfolding push_markers push_marker
push_markers-columns c [] = simp append-nil
push_markers-columns c (m ∷ markers) =
    push_markers-columns (push_marker c m) markers ∙ simp append_assoc

-- What is exported of a structure, whatever the columns held before.
abbrev pub export_of : StructData → CompactExportData
export_of d = record {
  header = d.header;
  marker_size = length d.marker_data;
  hit_size = length d.hit_data;
  marker_data = marker_columns d.marker_data;
  hit_data = hit_columns d.hit_data;
}

pub set_value-export_of : (e : CompactExportData) (d : StructData) → set_value e d ≡ export_of d
unfolding set_value fill_hit_data fill_marker_data clear_hits clear_markers
set_value-export_of e d =
    rw (push_hits-below no_hits d.hit_data, push_markers-columns no_markers d.marker_data) refl

-- The rows of columns, as far as every column goes.
abbrev pub hits_of : List ℕ → List ℕ → List ℕ → List ℕ → List ℕ → List ℕ → List ℕ → List HitData
hits_of (o ∷ os) (c ∷ cs) (t ∷ ts) (f ∷ fs) (v ∷ vs) (a ∷ as') (b ∷ bs) =
    record {
      is_over_threshold = not (o == 0);
      channel_num = c;
      tdc = t;
      offset = f;
      vmm_id = v;
      adc = a;
      bc_id = b;
    }
    ∷ hits_of os cs ts fs vs as' bs
hits_of _ _ _ _ _ _ _ = []

abbrev pub rows_of_hits : HitColumns → List HitData
rows_of_hits c = hits_of c.is_over_threshold c.channel_num c.tdc c.offset c.vmm_id c.adc c.bc_id

abbrev pub markers_of : List ℕ → List ℕ → List MarkerData
markers_of (v ∷ vs) (t ∷ ts) = record { vmm_id = v; srs_timestamp = t } ∷ markers_of vs ts
markers_of _ _ = []

number_of_lem : (b : Bool) → not (number_of b == 0) ≡ b
unfolding number_of
number_of_lem true = refl
number_of_lem false = refl

rows_of_hits-hit_columns : (hits : List HitData) → rows_of_hits (hit_columns hits) ≡ hits
rows_of_hits-hit_columns [] = refl
rows_of_hits-hit_columns (h ∷ hits) =
    ap₂ ◌∷◌ (ap (λ b. record h { is_over_threshold = b }) (number_of_lem h.is_over_threshold))
      (rows_of_hits-hit_columns hits)

markers_of-marker_columns :
    (markers : List MarkerData)
    → markers_of (marker_columns markers).vmm_id (marker_columns markers).srs_timestamp ≡ markers
markers_of-marker_columns [] = refl
markers_of-marker_columns (m ∷ markers) = ap (λ ms. m ∷ ms) (markers_of-marker_columns markers)

-- The exported columns give back the structure, whatever they held before: the header, the hits and
-- the markers row by row, and the numbers of hits and markers.
pub set_value_lem :
    (e : CompactExportData) (d : StructData)
    → let x = set_value e d in
      (x.header ≡ d.header)
      × (rows_of_hits x.hit_data ≡ d.hit_data)
      × (markers_of x.marker_data.vmm_id x.marker_data.srs_timestamp ≡ d.marker_data)
      × (x.hit_size ≡ length d.hit_data)
      × (x.marker_size ≡ length d.marker_data)
set_value_lem e d =
    rw (set_value-export_of e d) (
      refl,
      rows_of_hits-hit_columns d.hit_data,
      markers_of-marker_columns d.marker_data,
      refl,
      refl,
    )
