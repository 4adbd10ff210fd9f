-- ===== src/Sinks/Json/Tests.antt =====
-- Runs of backend/srs/sinks/JsonWriter.cpp, with a library that writes the number of hits.
use srs_control.Base.Expected.{value}
use srs_control.Base.{ℕ, ◌≡◌, refl, true, List, [], ◌∷◌, ◌++◌, length}
use srs_control.Data.Structs.{HitData, StructData, empty_struct}
use srs_control.Sinks.Json.{create_line, close_line, set_value, empty_export}
use srs_control.Sinks.Json.Array.{write_all, close_line-write_all}
use srs_control.Sinks.Json.Columns.{rows_of_hits, markers_of, set_value_lem}

abbrev hit : HitData
hit = record {
  is_over_threshold = true;
  channel_num = 5;
  tdc = 1;
  offset = 2;
  vmm_id = 3;
  adc = 4;
  bc_id = 6;
}

abbrev frame : StructData
frame = record empty_struct { hit_data = hit ∷ hit ∷ [] }

abbrev text : StructData → List ℕ
text d = (b'0' ∷ []) ++ (length d.hit_data ∷ [])

close_line-write_all_example :
    close_line (
      write_all {E = ℕ}
        (λ e. value (b'0' ∷ e.hit_size ∷ []))
        create_line
        (frame ∷ empty_struct ∷ []))
    ≡ b'[' ∷ 10 ∷ b'0' ∷ 2 ∷ b',' ∷ b' ' ∷ b'0' ∷ 0 ∷ b']' ∷ 10 ∷ []
close_line-write_all_example =
    close_line-write_all {E = ℕ} (λ e. value (b'0' ∷ e.hit_size ∷ [])) text (λ d. refl)
      (frame ∷ empty_struct ∷ [])

set_value_lem_example :
    let x = set_value empty_export frame in
    (x.header ≡ frame.header)
    × (rows_of_hits x.hit_data ≡ hit ∷ hit ∷ [])
    × (markers_of x.marker_data.vmm_id x.marker_data.srs_timestamp ≡ [])
    × (x.hit_size ≡ 2)
    × (x.marker_size ≡ 0)
set_value_lem_example = set_value_lem empty_export frame
