-- ===== src/Workflow/TaskGraph/Tests.antt =====
-- The tasks of a line with a binary file, a socket and the frame counter check.
use mathlib.Core.List.{Memᴰ}
use srs_control.Base.{ℕ, ◌≡◌, ◌≤◌, ◌↔◌, refl, arith, true, false, List, [], ◌∷◌, Option, some}
use srs_control.Converters.DataConvertOptions.{
  raw, raw_frame, structure, proto, proto_frame, convert_option_has_dependency, has_dependency,
  DependsOn,
}
use srs_control.Converters.DataConvertOptions.Reachable.{convert_option_has_dependency_iff}
use srs_control.Sinks.DataWriterOptions.{udp, contains, get_filetype_from_filename}
use srs_control.Sinks.Manager.Endpoint.{convert_str_to_endpoint_lem}
use srs_control.Sinks.Manager.{
  Sink, no_sinks, enable_frame_count_checker, convert_str_to_endpoint, add_output,
  set_output_filenames,
}
use srs_control.Workflow.TaskGraph.Connected.{construct_taskflow_line-connected}
use srs_control.Workflow.TaskGraph.Made.{IsMade}
use srs_control.Workflow.TaskGraph.{converter, sink_task, construct_taskflow_line}

abbrev resolve : (ip port : List ℕ) → Option (List ℕ)
resolve ip port = some port

-- `a.bin` and `h:?9`.
abbrev names : List (List ℕ)
names = (b'a' ∷ b'.' ∷ b'b' ∷ b'i' ∷ b'n' ∷ []) ∷ (b'h' ∷ b':' ∷ b'?' ∷ b'9' ∷ []) ∷ []

abbrev file_sink : Sink
file_sink = record {
  name = b'a' ∷ b'.' ∷ b'b' ∷ b'i' ∷ b'n' ∷ [];
  is_struct_type = false;
  required_conversion = raw_frame;
}

construct_taskflow_line-connected_example :
    Memᴰ (sink_task file_sink (converter raw_frame)) (
      construct_taskflow_line
        (set_output_filenames resolve true (enable_frame_count_checker no_sinks) names))
    × IsMade
        (construct_taskflow_line
          (set_output_filenames resolve true (enable_frame_count_checker no_sinks) names))
        (converter raw_frame)
unfolding set_output_filenames add_output get_filetype_from_filename contains
    convert_str_to_endpoint enable_frame_count_checker
construct_taskflow_line-connected_example =
    construct_taskflow_line-connected resolve true names true file_sink (Memᴰ.head refl)

convert_option_has_dependency_iff_example :
    ((convert_option_has_dependency raw proto_frame ≡ true) ↔ DependsOn raw proto_frame)
    × ((fuel : ℕ)
        → 3 ≤ fuel
        → (has_dependency fuel raw proto_frame ≡ true) ↔ DependsOn raw proto_frame)
convert_option_has_dependency_iff_example = convert_option_has_dependency_iff raw proto_frame

-- No sink of raw bytes makes a structure necessary.
raw_needs_no_structure : convert_option_has_dependency structure raw ≡ false
unfolding convert_option_has_dependency has_dependency
raw_needs_no_structure = refl

convert_str_to_endpoint_lem_example :
    (get_filetype_from_filename (b'h' ∷ b':' ∷ b'9' ∷ []) ≡ (udp, proto))
    × (get_filetype_from_filename (b'h' ∷ b':' ∷ b'?' ∷ b'9' ∷ []) ≡ (udp, raw))
    × (convert_str_to_endpoint resolve (b'h' ∷ b':' ∷ b'9' ∷ []) ≡ some (b'9' ∷ []))
    × (convert_str_to_endpoint resolve (b'h' ∷ b':' ∷ b'?' ∷ b'9' ∷ []) ≡ some (b'9' ∷ []))
convert_str_to_endpoint_lem_example =
    convert_str_to_endpoint_lem resolve (b'h' ∷ []) (b'9' ∷ []) (omega arith) (omega arith)
      (omega arith)
