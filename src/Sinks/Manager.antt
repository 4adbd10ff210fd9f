-- ===== src/Sinks/Manager.antt =====
-- backend/srs/sinks/Manager.cpp and .hpp: the sinks of the program, added by the names of their
-- outputs, and which conversions they require. A map is the list of its entries, in the order in
-- which they were added; the program visits them by name, which no result here depends on. That a
-- sink opens its file or socket is left out. Whether the program is built with ROOT, and the
-- resolver of the network library, are parameters.
pub mod Outputs
pub mod Endpoint
pub mod Conversions
use srs_control.Base.{
  ℕ, suc, ◌+◌, Bool, true, false, List, [], ◌∷◌, ◌++◌, map, Option, none, some, if◌then◌else◌, take,
  drop,
}
use srs_control.Converters.DataConvertOptions.{
  DataConvertOptions, no_conversion, raw, raw_frame, structure, structure_to_proto, proto,
  proto_frame, convert_option_has_dependency, any_of, same_option,
}
use srs_control.Sinks.DataWriterOptions.{
  DataWriterOption, no_output, root, json, bin, udp, same_text, find, get_filetype_from_filename,
}

pub record File : Type 0 where
  pub filename : List ℕ
  pub required_conversion : DataConvertOptions

pub record Manager : Type 0 where
  pub binary_files : List File
  pub udp_files : List File
  pub json_files : List File
  pub root_files : List File
  pub frame_count_checker : Bool

abbrev pub no_sinks : Manager
no_sinks = record {
  binary_files = [];
  udp_files = [];
  json_files = [];
  root_files = [];
  frame_count_checker = false;
}

unfoldable pub enable_frame_count_checker : Manager → Manager
enable_frame_count_checker m = record m { frame_count_checker = true }

abbrev has_key : List File → (filename : List ℕ) → Bool
has_key files filename = any_of (λ (f : File). same_text f.filename filename) files

-- `std::map::try_emplace`.
abbrev pub try_emplace :
    List File → (filename : List ℕ) (prev_conversion : DataConvertOptions) → List File × Bool
try_emplace files filename prev_conversion =
    if has_key files filename
    then (files, false)
    else (files ++ record { filename = filename; required_conversion = prev_conversion } ∷ [], true)

-- What `do_for_each_sink` visits. A sink reads structures (`IsStructType`) or bytes.
pub record Sink : Type 0 where
  pub name : List ℕ
  pub is_struct_type : Bool
  pub required_conversion : DataConvertOptions

abbrev pub sink_of : (is_struct_type : Bool) → File → Sink
sink_of is_struct_type f = record {
  name = f.filename;
  is_struct_type = is_struct_type;
  required_conversion = f.required_conversion;
}

abbrev pub checker_sinks : Bool → List Sink
checker_sinks false = []
checker_sinks true = record { name = []; is_struct_type = false; required_conversion = raw } ∷ []

abbrev pub all_sinks : Manager → List Sink
all_sinks m =
    map (sink_of false) m.binary_files
    ++ (map (sink_of false) m.udp_files
        ++ (map (sink_of true) m.json_files
            ++ (checker_sinks m.frame_count_checker ++ map (sink_of true) m.root_files)))

unfoldable pub is_convert_required : Manager → (dependee : DataConvertOptions) → Bool
is_convert_required m dependee =
    any_of (λ (s : Sink). convert_option_has_dependency dependee s.required_conversion)
      (all_sinks m)

abbrev pub enum_values : List DataConvertOptions
enum_values =
    no_conversion ∷ raw ∷ raw_frame ∷ structure ∷ structure_to_proto ∷ proto ∷ proto_frame ∷ []

-- `operator[]` of a map with an assignment.
unfoldable pub assign :
    (key : DataConvertOptions) (is_set : Bool)
    → List (DataConvertOptions × Bool)
    → List (DataConvertOptions × Bool)
assign key is_set [] = (key, is_set) ∷ []
assign key is_set ((k, b) ∷ rest) =
    let others = assign key is_set rest in
    if same_option k key then (k, is_set) ∷ rest else (k, b) ∷ others

unfoldable pub generate_conversion_req_map : Manager → List (DataConvertOptions × Bool)
generate_conversion_req_map m =
    let convert_map =
      map (λ conversion. (conversion, is_convert_required m conversion)) enum_values in
    if any_of (λ (entry : DataConvertOptions × Bool). entry.1) convert_map
    then convert_map
    else assign no_conversion true convert_map

module _ {ℓ} {Endpoint : Type ℓ} (resolve : (ip port : List ℕ) → Option Endpoint) where
  -- `ip:port` or `ip:?port`.
  unfoldable pub convert_str_to_endpoint : (ip_port : List ℕ) → Option Endpoint
  convert_str_to_endpoint ip_port = elim (find ip_port b':') [
    | none ↦ none
    | some colon_pos ↦ resolve (take colon_pos ip_port) (elim (find ip_port b'?') [
      | none ↦ drop (colon_pos + 1) ip_port
      | some question_pos ↦ drop (question_pos + 1) ip_port
    ])
  ]

  -- The body of the loop of `set_output_filenames`, for a name of this kind; the second component
  -- is `is_ok`, or nothing where the loop continues before it is looked at.
  unfoldable pub add_output :
      (has_root : Bool)
      → Manager
      → (filename : List ℕ) → DataWriterOption × DataConvertOptions
      → Manager × Option Bool
  add_output has_root m filename (no_output, mode) = (m, none)
  add_output has_root m filename (bin, mode) =
      let (files, is_ok) = try_emplace m.binary_files filename mode in
      (record m { binary_files = files }, some is_ok)
  add_output has_root m filename (udp, mode) = elim (convert_str_to_endpoint filename) [
    | none ↦ (m, some false)
    | some endpoint ↦
        let (files, is_ok) = try_emplace m.udp_files filename mode in
        (record m { udp_files = files }, some is_ok)
  ]
  add_output has_root m filename (root, mode) =
      let (files, is_ok) = try_emplace m.root_files filename mode in
      if has_root then (record m { root_files = files }, some is_ok) else (m, none)
  add_output has_root m filename (json, mode) =
      let (files, is_ok) = try_emplace m.json_files filename mode in
      (record m { json_files = files }, some is_ok)

  unfoldable pub set_output_filenames :
      (has_root : Bool) → Manager → (filenames : List (List ℕ)) → Manager
  set_output_filenames has_root m [] = m
  set_output_filenames has_root m ([] ∷ filenames) = set_output_filenames has_root m filenames
  set_output_filenames has_root m ((c ∷ cs) ∷ filenames) =
      set_output_filenames has_root
        (add_output has_root m (c ∷ cs) (get_filetype_from_filename (c ∷ cs))).0 filenames
