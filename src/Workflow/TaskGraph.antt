-- ===== src/Workflow/TaskGraph.antt =====
-- backend/srs/workflow/TaskDiagram.cpp: `construct_taskflow_line`, which makes the tasks of one
-- pipeline line. A task is known by what it runs, and by what its input comes from: the task that
-- precedes it, or the raw data of the line.
pub mod Connected
pub mod Made
pub mod Predecessors
mod Tests
use srs_control.Base.{ℕ, Bool, true, false, List, [], ◌∷◌, ◌++◌, Option, none, some, if◌then◌else◌}
use srs_control.Converters.DataConvertOptions.{
  DataConvertOptions, no_conversion, raw, raw_frame, structure, structure_to_proto, proto,
  proto_frame,
}
use srs_control.Sinks.Manager.{Manager, Sink, all_sinks, is_convert_required}

pub data Source : Type 0 where
  raw_data : Source
  converter : DataConvertOptions → Source

pub data Task : Type 0 where
  converter_task : (converter_type : DataConvertOptions) (prev_task : Source) → Task
  sink_task : (sink : Sink) (prev_task : Source) → Task

-- `create_task_imp` of a converter: what the next task can be connected to, and the tasks made.
unfoldable pub create_converter_task :
    Manager
    → (converter_type : DataConvertOptions) (prev_task : Option Source) → Option Source × List Task
create_converter_task m converter_type none = (none, [])
create_converter_task m converter_type (some prev_task) =
    if is_convert_required m converter_type
    then (some (converter converter_type), converter_task converter_type prev_task ∷ [])
    else (none, [])

-- `create_task_imp` of a sink.
unfoldable pub create_sink_task : Sink → (prev_task : Option Source) → List Task
create_sink_task sink none = []
create_sink_task sink (some prev_task) = sink_task sink prev_task ∷ []

-- The converters of a line.
pub record Converters : Type 0 where
  pub raw_delimiter_task : Option Source
  pub struct_deser_task : Option Source
  pub proto_serial_task : Option Source
  pub proto_delim_serial_task : Option Source

-- The task to which the visitor of the sinks connects one, by `IsStructType` and the conversion.
unfoldable pub choose_task :
    Converters → (is_struct_type : Bool) (convert_mode : DataConvertOptions) → Option Source
choose_task c true convert_mode = c.struct_deser_task
choose_task c false raw = some raw_data
choose_task c false raw_frame = c.raw_delimiter_task
choose_task c false proto = c.proto_serial_task
choose_task c false proto_frame = c.proto_delim_serial_task
choose_task c false _ = some raw_data

abbrev pub prev_task_of : Converters → (sink : Sink) → Option Source
prev_task_of c sink = choose_task c sink.is_struct_type sink.required_conversion

unfoldable pub create_sink_tasks : Converters → List Sink → List Task
create_sink_tasks c [] = []
create_sink_tasks c (sink ∷ sinks) =
    create_sink_task sink (prev_task_of c sink) ++ create_sink_tasks c sinks

unfoldable pub converters_of : Manager → Converters × List Task
converters_of m =
    let empty_task = some raw_data in
    let (raw_delimiter_task, tasks₁) = create_converter_task m raw_frame empty_task in
    let (struct_deser_task, tasks₂) = create_converter_task m structure empty_task in
    let (struct_to_proto_task, tasks₃) =
      create_converter_task m structure_to_proto struct_deser_task in
    let (proto_serial_task, tasks₄) = create_converter_task m proto struct_to_proto_task in
    let (proto_delim_serial_task, tasks₅) =
      create_converter_task m proto_frame struct_to_proto_task in
    (
      record {
        raw_delimiter_task = raw_delimiter_task;
        struct_deser_task = struct_deser_task;
        proto_serial_task = proto_serial_task;
        proto_delim_serial_task = proto_delim_serial_task;
      },
      tasks₁ ++ (tasks₂ ++ (tasks₃ ++ (tasks₄ ++ tasks₅))),
    )

unfoldable pub construct_taskflow_line : Manager → List Task
construct_taskflow_line m =
    let (converters, tasks) = converters_of m in tasks ++ create_sink_tasks converters (all_sinks m)
