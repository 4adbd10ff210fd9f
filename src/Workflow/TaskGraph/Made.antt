-- ===== src/Workflow/TaskGraph/Made.antt =====
-- The tasks of the conversions of a line in backend/srs/workflow/TaskDiagram.cpp: those that a sink
-- needs are made.
use mathlib.Core.List.{Memᴰ}
use srs_control.Base.{◌≡◌, inl, inr, refl, sym, subst, true, List, ◌++◌, Option, some}
use srs_control.Converters.DataConvertOptions.{
  DataConvertOptions, raw_frame, structure, structure_to_proto, proto, proto_frame,
  convert_option_has_dependency, has_dependency,
}
use srs_control.Sinks.Manager.{Manager, Sink, all_sinks, is_convert_required}
use srs_control.Workflow.TaskGraph.{
  Source, raw_data, converter, Task, converter_task, create_converter_task, create_sink_tasks,
  converters_of, construct_taskflow_line,
}
use srs_control.Workflow.TaskGraph.Predecessors.{
  source_of, CanRead, required, created, needed, Mem-append_left, Mem-append_right, task-made,
}

-- What the input of a conversion is made by: nothing but the raw data, or another conversion.
abbrev pub input_of : DataConvertOptions → Source
input_of structure_to_proto = converter structure
input_of proto = converter structure_to_proto
input_of proto_frame = converter structure_to_proto
input_of _ = raw_data

-- Among the tasks are that of the conversion and all those before it, each with the one before it as
-- its predecessor, back to the raw data.
pub data IsMade (tasks : List Task) : Source → Type 0 where
  given : IsMade tasks raw_data
  made :
      (type : DataConvertOptions)
      → Memᴰ (converter_task type (input_of type)) tasks
      → IsMade tasks (input_of type)
      → IsMade tasks (converter type)

module _ (m : Manager) where
  abbrev line : List Task
  line = construct_taskflow_line m

  -- The tasks of the conversions, one after another.
  abbrev raw_tasks : List Task
  raw_tasks = (create_converter_task m raw_frame (some raw_data)).1

  abbrev struct_source : Option Source
  struct_source = (create_converter_task m structure (some raw_data)).0

  abbrev struct_tasks : List Task
  struct_tasks = (create_converter_task m structure (some raw_data)).1

  abbrev to_proto_source : Option Source
  to_proto_source = (create_converter_task m structure_to_proto struct_source).0

  abbrev to_proto_tasks : List Task
  to_proto_tasks = (create_converter_task m structure_to_proto struct_source).1

  abbrev proto_tasks : List Task
  proto_tasks = (create_converter_task m proto to_proto_source).1

  abbrev delim_tasks : List Task
  delim_tasks = (create_converter_task m proto_frame to_proto_source).1

  in_line :
      (t : Task)
      → Memᴰ t (raw_tasks ++ (struct_tasks ++ (to_proto_tasks ++ (proto_tasks ++ delim_tasks))))
      → Memᴰ t line
  unfolding construct_taskflow_line converters_of
  in_line t member =
      Mem-append_left m t (converters_of m).1 (create_sink_tasks (converters_of m).0 (all_sinks m))
        member

  -- Those after the raw delimiter, after the deserializer, and after the converter to messages.
  after_raw :
      (t : Task)
      → Memᴰ t (struct_tasks ++ (to_proto_tasks ++ (proto_tasks ++ delim_tasks)))
      → Memᴰ t line
  after_raw t member = in_line t (Mem-append_right m t raw_tasks _ member)

  after_struct : (t : Task) → Memᴰ t (to_proto_tasks ++ (proto_tasks ++ delim_tasks)) → Memᴰ t line
  after_struct t member = after_raw t (Mem-append_right m t struct_tasks _ member)

  after_to_proto : (t : Task) → Memᴰ t (proto_tasks ++ delim_tasks) → Memᴰ t line
  after_to_proto t member = after_struct t (Mem-append_right m t to_proto_tasks _ member)

  raw_frame-IsMade : is_convert_required m raw_frame ≡ true → IsMade line (converter raw_frame)
  raw_frame-IsMade needs =
      made raw_frame
        (in_line _ (
          Mem-append_left m _ raw_tasks _
            (task-made m raw_frame (some raw_data) raw_data refl needs)))
        given

  module _ (needs : is_convert_required m structure ≡ true) where
    struct-IsMade : IsMade line (converter structure)
    struct-IsMade =
        made structure
          (after_raw _ (
            Mem-append_left m _ struct_tasks _
              (task-made m structure (some raw_data) raw_data refl needs)))
          given

    module _ (needs₂ : is_convert_required m structure_to_proto ≡ true) where
      to_proto_source-eq : to_proto_source ≡ some (converter structure_to_proto)
      to_proto_source-eq =
          created m structure_to_proto struct_source (converter structure)
            (created m structure (some raw_data) raw_data refl needs) needs₂

      to_proto-IsMade : IsMade line (converter structure_to_proto)
      to_proto-IsMade =
          made structure_to_proto
            (after_struct _ (
              Mem-append_left m _ to_proto_tasks _ (
                task-made m structure_to_proto struct_source (converter structure)
                  (created m structure (some raw_data) raw_data refl needs) needs₂)))
            struct-IsMade

      proto-IsMade : is_convert_required m proto ≡ true → IsMade line (converter proto)
      proto-IsMade needs₃ =
          made proto
            (after_to_proto _ (
              Mem-append_left m _ proto_tasks _ (
                task-made m proto to_proto_source (converter structure_to_proto) to_proto_source-eq
                  needs₃)))
            to_proto-IsMade

      proto_frame-IsMade :
          is_convert_required m proto_frame ≡ true → IsMade line (converter proto_frame)
      proto_frame-IsMade needs₃ =
          made proto_frame
            (after_to_proto _ (
              Mem-append_right m _ proto_tasks delim_tasks (
                task-made m proto_frame to_proto_source (converter structure_to_proto)
                  to_proto_source-eq needs₃)))
            to_proto-IsMade

  pub source-IsMade :
      (s : Sink) → Memᴰ s (all_sinks m) → CanRead s → IsMade line (source_of s.required_conversion)
  unfolding convert_option_has_dependency has_dependency
  source-IsMade s member (inl (kind, mode)) =
      subst (λ c. IsMade line (source_of c)) (sym mode)
        (struct-IsMade (required m s structure member (needed m s structure structure mode refl)))
  source-IsMade s member (inr (kind, inl (inl mode))) =
      subst (λ c. IsMade line (source_of c)) (sym mode) given
  source-IsMade s member (inr (kind, inl (inr mode))) =
      subst (λ c. IsMade line (source_of c)) (sym mode)
        (raw_frame-IsMade
          (required m s raw_frame member (needed m s raw_frame raw_frame mode refl)))
  source-IsMade s member (inr (kind, inr (inl mode))) =
      subst (λ c. IsMade line (source_of c)) (sym mode)
        (proto-IsMade (required m s structure member (needed m s structure proto mode refl))
          (required m s structure_to_proto member (needed m s structure_to_proto proto mode refl))
          (required m s proto member (needed m s proto proto mode refl)))
  source-IsMade s member (inr (kind, inr (inr mode))) =
      subst (λ c. IsMade line (source_of c)) (sym mode)
        (proto_frame-IsMade
          (required m s structure member (needed m s structure proto_frame mode refl))
          (required m s structure_to_proto member
            (needed m s structure_to_proto proto_frame mode refl))
          (required m s proto_frame member (needed m s proto_frame proto_frame mode refl)))
