-- ===== src/Workflow/TaskGraph/Predecessors.antt =====
-- The tasks of the sinks of a line in backend/srs/workflow/TaskDiagram.cpp, and what precedes them.
use mathlib.Core.List.{Memᴰ}
use srs_control.Base.{
  ◌≡◌, ◌⊎◌, inl, inr, refl, ap, ap₂, ◌∙◌, sym, subst, true, false, List, [], ◌∷◌, ◌++◌, Option,
  some,
}
use srs_control.Converters.DataConvertOptions.{
  DataConvertOptions, raw, raw_frame, structure, structure_to_proto, proto, proto_frame,
  convert_option_has_dependency, has_dependency,
}
use srs_control.Converters.DataConvertOptions.Reachable.{Mem-any_of}
use srs_control.Sinks.Manager.{Manager, Sink, all_sinks, is_convert_required}
use srs_control.Sinks.Manager.Outputs.{OneOf}
use srs_control.Workflow.TaskGraph.{
  Source, raw_data, converter, Task, converter_task, sink_task, create_converter_task,
  create_sink_task, Converters, choose_task, prev_task_of, create_sink_tasks, converters_of,
  construct_taskflow_line,
}

-- Where a sink has its data from: bytes of the raw data or of the conversion that it requires.
abbrev pub source_of : DataConvertOptions → Source
source_of raw = raw_data
source_of conversion = converter conversion

-- What a sink reads goes with what it requires.
abbrev pub CanRead : Sink → Type 0
CanRead s =
    ((s.is_struct_type ≡ true) × (s.required_conversion ≡ structure))
    ⊎ (s.is_struct_type ≡ false)
      × (OneOf raw raw_frame s.required_conversion ⊎ OneOf proto proto_frame s.required_conversion)

module _ (m : Manager) where
  pub required :
      (s : Sink) (dependee : DataConvertOptions)
      → Memᴰ s (all_sinks m)
      → convert_option_has_dependency dependee s.required_conversion ≡ true
      → is_convert_required m dependee ≡ true
  unfolding is_convert_required
  required s dependee member needs = Mem-any_of _ s (all_sinks m) member needs

  pub created :
      (type : DataConvertOptions) (prev : Option Source) (source : Source)
      → prev ≡ some source
      → is_convert_required m type ≡ true
      → (create_converter_task m type prev).0 ≡ some (converter type)
  unfolding create_converter_task
  created type prev source e needs = rw (e, create_converter_task, needs) refl

  -- The tasks of the conversions that lead to protobuf messages.
  proto_source :
      (s : Sink) (type : DataConvertOptions)
      → Memᴰ s (all_sinks m)
      → convert_option_has_dependency structure s.required_conversion ≡ true
      → convert_option_has_dependency structure_to_proto s.required_conversion ≡ true
      → convert_option_has_dependency type s.required_conversion ≡ true
      → (create_converter_task m type
          (create_converter_task m structure_to_proto
            (create_converter_task m structure (some raw_data)).0).0).0
        ≡ some (converter type)
  proto_source s type member needs₁ needs₂ needs₃ =
      created type _ (converter structure_to_proto)
        (created structure_to_proto _ (converter structure)
          (created structure (some raw_data) raw_data refl (required s structure member needs₁))
          (required s structure_to_proto member needs₂))
        (required s type member needs₃)

  pub needed :
      (s : Sink) (dependee mode : DataConvertOptions)
      → s.required_conversion ≡ mode
      → convert_option_has_dependency dependee mode ≡ true
      → convert_option_has_dependency dependee s.required_conversion ≡ true
  needed s dependee mode e h = ap (convert_option_has_dependency dependee) e ∙ h

  -- The sink's predecessor exists.
  prev_task-exists :
      (s : Sink)
      → Memᴰ s (all_sinks m)
      → CanRead s
      → prev_task_of (converters_of m).0 s ≡ some (source_of s.required_conversion)
  unfolding choose_task converters_of convert_option_has_dependency has_dependency
  prev_task-exists s member (inl (kind, mode)) =
      ap₂ (choose_task (converters_of m).0) kind mode
      ∙ created structure (some raw_data) raw_data refl
          (required s structure member (needed s structure structure mode refl))
      ∙ ap (λ x. some (source_of x)) (sym mode)
  prev_task-exists s member (inr (kind, inl (inl mode))) =
      ap₂ (choose_task (converters_of m).0) kind mode ∙ ap (λ x. some (source_of x)) (sym mode)
  prev_task-exists s member (inr (kind, inl (inr mode))) =
      ap₂ (choose_task (converters_of m).0) kind mode
      ∙ created raw_frame (some raw_data) raw_data refl
          (required s raw_frame member (needed s raw_frame raw_frame mode refl))
      ∙ ap (λ x. some (source_of x)) (sym mode)
  prev_task-exists s member (inr (kind, inr (inl mode))) =
      ap₂ (choose_task (converters_of m).0) kind mode
      ∙ proto_source s proto member (needed s structure proto mode refl)
          (needed s structure_to_proto proto mode refl) (needed s proto proto mode refl)
      ∙ ap (λ x. some (source_of x)) (sym mode)
  prev_task-exists s member (inr (kind, inr (inr mode))) =
      ap₂ (choose_task (converters_of m).0) kind mode
      ∙ proto_source s proto_frame member (needed s structure proto_frame mode refl)
          (needed s structure_to_proto proto_frame mode refl)
          (needed s proto_frame proto_frame mode refl)
      ∙ ap (λ x. some (source_of x)) (sym mode)

  pub Mem-append_left : (t : Task) (xs ys : List Task) → Memᴰ t xs → Memᴰ t (xs ++ ys)
  Mem-append_left t [] ys member = elim member [ ]
  Mem-append_left t (x ∷ xs) ys (Memᴰ.head e) = Memᴰ.head e
  Mem-append_left t (x ∷ xs) ys (Memᴰ.tail member) = Memᴰ.tail (Mem-append_left t xs ys member)

  pub Mem-append_right : (t : Task) (xs ys : List Task) → Memᴰ t ys → Memᴰ t (xs ++ ys)
  Mem-append_right t [] ys member = member
  Mem-append_right t (x ∷ xs) ys member = Memᴰ.tail (Mem-append_right t xs ys member)

  sink_task-made :
      (c : Converters) (s : Sink) (source : Source) (sinks : List Sink)
      → prev_task_of c s ≡ some source
      → Memᴰ s sinks
      → Memᴰ (sink_task s source) (create_sink_tasks c sinks)
  unfolding create_sink_tasks create_sink_task
  sink_task-made c s source [] e member = elim member [ ]
  sink_task-made c s source (x ∷ sinks) e (Memᴰ.head same) =
      subst
        (λ y.
          Memᴰ (sink_task s source)
            (create_sink_task y (prev_task_of c y) ++ create_sink_tasks c sinks))
        same
        (subst (λ o. Memᴰ (sink_task s source) (create_sink_task s o ++ create_sink_tasks c sinks))
          (sym e) (Memᴰ.head refl))
  sink_task-made c s source (x ∷ sinks) e (Memᴰ.tail member) =
      Mem-append_right _ (create_sink_task x (prev_task_of c x)) _
        (sink_task-made c s source sinks e member)

  pub sink_task-connected :
      (s : Sink)
      → Memᴰ s (all_sinks m)
      → CanRead s
      → Memᴰ (sink_task s (source_of s.required_conversion)) (construct_taskflow_line m)
  unfolding construct_taskflow_line
  sink_task-connected s member reads =
      Mem-append_right _ (converters_of m).1 (create_sink_tasks (converters_of m).0 (all_sinks m)) (
        sink_task-made (converters_of m).0 s _ (all_sinks m) (prev_task-exists s member reads)
          member)

  pub task-made :
      (type : DataConvertOptions) (prev : Option Source) (source : Source)
      → prev ≡ some source
      → is_convert_required m type ≡ true
      → Memᴰ (converter_task type source) (create_converter_task m type prev).1
  unfolding create_converter_task
  task-made type prev source e needs = rw (e, create_converter_task, needs) (Memᴰ.head refl)
