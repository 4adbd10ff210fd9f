-- ===== src/Sinks/Json.antt =====
-- backend/srs/sinks/JsonWriter.hpp and .cpp: the columns that a structure is exported as, and the file
-- of a line. The library glaze, which writes the columns as a text, is a parameter, and a text is the
-- list of its bytes. That files are opened and closed is left out.
pub mod Columns
pub mod Array
pub mod Tests
use srs_control.Base.Expected.{Expected, value, unexpected}
use srs_control.Base.{
  ℕ, Bool, true, false, List, [], ◌∷◌, ◌++◌, length, replicate, ◌%◌, ◌^◌, Option, none, some,
  get_elem?, set, map, if◌then◌else◌,
}
use srs_control.Data.Structs.{ReceiveDataHeader, HitData, MarkerData, StructData, empty_header}

-- The columns of `hit_data`, by their keys.
pub record HitColumns : Type 0 where
  pub is_over_threshold : List ℕ
  pub channel_num : List ℕ
  pub tdc : List ℕ
  pub offset : List ℕ
  pub vmm_id : List ℕ
  pub adc : List ℕ
  pub bc_id : List ℕ

pub record MarkerColumns : Type 0 where
  pub vmm_id : List ℕ
  pub srs_timestamp : List ℕ

pub record CompactExportData : Type 0 where
  pub header : ReceiveDataHeader
  pub marker_size : ℕ
  pub hit_size : ℕ
  pub marker_data : MarkerColumns
  pub hit_data : HitColumns

abbrev pub no_hits : HitColumns
no_hits = record {
  is_over_threshold = [];
  channel_num = [];
  tdc = [];
  offset = [];
  vmm_id = [];
  adc = [];
  bc_id = [];
}

abbrev pub no_markers : MarkerColumns
no_markers = record { vmm_id = []; srs_timestamp = [] }

abbrev pub empty_export : CompactExportData
empty_export = record {
  header = empty_header;
  marker_size = 0;
  hit_size = 0;
  marker_data = no_markers;
  hit_data = no_hits;
}

-- `static_cast<uint16_t>` of a Boolean.
unfoldable pub number_of : Bool → ℕ
number_of true = 1
number_of false = 0

unfoldable pub push_hit : HitColumns → HitData → HitColumns
push_hit c hit = record {
  is_over_threshold = c.is_over_threshold ++ number_of hit.is_over_threshold ∷ [];
  channel_num = c.channel_num ++ hit.channel_num ∷ [];
  tdc = c.tdc ++ hit.tdc ∷ [];
  offset = c.offset ++ hit.offset ∷ [];
  vmm_id = c.vmm_id ++ hit.vmm_id ∷ [];
  adc = c.adc ++ hit.adc ∷ [];
  bc_id = c.bc_id ++ hit.bc_id ∷ [];
}

unfoldable pub push_hits : HitColumns → List HitData → HitColumns
push_hits c [] = c
push_hits c (hit ∷ hits) = push_hits (push_hit c hit) hits

-- `value.clear()` for every column.
unfoldable pub clear_hits : HitColumns → HitColumns
clear_hits c = record c {
  is_over_threshold = [];
  channel_num = [];
  tdc = [];
  offset = [];
  vmm_id = [];
  adc = [];
  bc_id = [];
}

unfoldable pub fill_hit_data : CompactExportData → List HitData → CompactExportData
fill_hit_data e hits = record e {
  hit_size = length hits;
  hit_data = push_hits (clear_hits e.hit_data) hits;
}

unfoldable pub push_marker : MarkerColumns → MarkerData → MarkerColumns
push_marker c marker = record {
  vmm_id = c.vmm_id ++ marker.vmm_id ∷ [];
  srs_timestamp = c.srs_timestamp ++ marker.srs_timestamp ∷ [];
}

unfoldable pub push_markers : MarkerColumns → List MarkerData → MarkerColumns
push_markers c [] = c
push_markers c (marker ∷ markers) = push_markers (push_marker c marker) markers

unfoldable pub clear_markers : MarkerColumns → MarkerColumns
clear_markers c = record c { vmm_id = []; srs_timestamp = [] }

unfoldable pub fill_marker_data : CompactExportData → List MarkerData → CompactExportData
fill_marker_data e markers = record e {
  marker_size = length markers;
  marker_data = push_markers (clear_markers e.marker_data) markers;
}

unfoldable pub set_value : CompactExportData → StructData → CompactExportData
set_value e data_struct =
    let with_header = record e { header = data_struct.header } in
    fill_marker_data (fill_hit_data with_header data_struct.hit_data) data_struct.marker_data

-- What the sink holds for one line.
pub record JsonLine : Type 0 where
  pub is_first_item : Bool
  pub output_data : ℕ
  pub data_buffer : CompactExportData
  pub string_buffer : List ℕ
  pub file_stream : List ℕ

abbrev pub opening : List ℕ
opening = b'[' ∷ 10 ∷ []

abbrev pub closing : List ℕ
closing = b']' ∷ 10 ∷ []

abbrev pub separator : List ℕ
separator = b',' ∷ b' ' ∷ []

unfoldable pub create_line : JsonLine
create_line = record {
  is_first_item = true;
  output_data = 0;
  data_buffer = empty_export;
  string_buffer = [];
  file_stream = opening;
}

unfoldable pub create : (n_lines : ℕ) → List JsonLine
create n_lines = replicate n_lines create_line

-- The destructor.
unfoldable pub close_line : JsonLine → List ℕ
close_line l = l.file_stream ++ closing

unfoldable pub write_separator : JsonLine → JsonLine
write_separator l =
    if l.is_first_item
    then record l { is_first_item = false }
    else record l { file_stream = l.file_stream ++ separator }

-- The text of the columns, or the error of the library.
module _ {E : Type 0} (glz_write : CompactExportData → Expected E (List ℕ)) where
  -- An exception leaves the line as it is then.
  unfoldable pub write_text : JsonLine → Expected E (List ℕ) → JsonLine × Option E
  write_text l (unexpected e) = (l, some e)
  write_text l (value string_buffer) = (
    record l {
      output_data = length string_buffer;
      string_buffer = [];
      file_stream = l.file_stream ++ string_buffer;
    },
    none,
  )

  unfoldable pub write_json : JsonLine → StructData → JsonLine × Option E
  write_json l data_struct =
      let started = write_separator l in
      let filled = record started { data_buffer = set_value started.data_buffer data_struct } in
      write_text filled (glz_write filled.data_buffer)
