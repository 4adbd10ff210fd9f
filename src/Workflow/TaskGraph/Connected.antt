-- ===== src/Workflow/TaskGraph/Connected.antt =====
-- The tasks of a line in backend/srs/workflow/TaskDiagram.cpp: every sink gets its data.
use mathlib.Core.List.{Memᴰ}
use mathlib.Core.Logic.{⊎_elim}
use srs_control.Base.{
  ℕ, inl, inr, refl, Bool, true, false, List, map, Option, if◌then◌else◌, All, All-Mem, All-append,
  All-map, All-imp,
}
use srs_control.Sinks.Manager.{
  Manager, Sink, all_sinks, no_sinks, enable_frame_count_checker, set_output_filenames,
  checker_sinks, sink_of,
}
use srs_control.Sinks.Manager.Outputs.{
  IsManager, no_sinks-IsManager, set_output_filenames-IsManager,
}
use srs_control.Workflow.TaskGraph.{sink_task, construct_taskflow_line}
use srs_control.Workflow.TaskGraph.Predecessors.{source_of, CanRead, sink_task-connected}
use srs_control.Workflow.TaskGraph.Made.{IsMade, source-IsMade}

checker_sinks-CanRead : (b : Bool) → All CanRead (checker_sinks b)
checker_sinks-CanRead false = tt
checker_sinks-CanRead true = (inr (refl, inl (inl refl)), tt)

all_sinks-CanRead : (m : Manager) → IsManager m → All CanRead (all_sinks m)
all_sinks-CanRead m v =
    All-append CanRead (map (sink_of false) m.binary_files) _
      (All-map CanRead (sink_of false) m.binary_files (
        All-imp _ (λ f. CanRead (sink_of false f)) m.binary_files
          (λ f. ⊎_elim (λ e. inr (refl, inl (inr e))) (λ e. inr (refl, inr (inr e))))
          v.binary_files))
      (All-append CanRead (map (sink_of false) m.udp_files) _
        (All-map CanRead (sink_of false) m.udp_files (
          All-imp _ (λ f. CanRead (sink_of false f)) m.udp_files
            (λ f. ⊎_elim (λ e. inr (refl, inl (inl e))) (λ e. inr (refl, inr (inl e))))
            v.udp_files))
        (All-append CanRead (map (sink_of true) m.json_files) _
          (All-map CanRead (sink_of true) m.json_files (
            All-imp _ (λ f. CanRead (sink_of true f)) m.json_files (λ f e. inl (refl, e))
              v.json_files))
          (All-append CanRead (checker_sinks m.frame_count_checker) _
            (checker_sinks-CanRead m.frame_count_checker)
            (All-map CanRead (sink_of true) m.root_files (
              All-imp _ (λ f. CanRead (sink_of true f)) m.root_files (λ f e. inl (refl, e))
                v.root_files)))))

begin-IsManager :
    (b : Bool) → IsManager (if b then enable_frame_count_checker no_sinks else no_sinks)
unfolding enable_frame_count_checker
begin-IsManager true = record {
  binary_files = tt;
  udp_files = tt;
  json_files = tt;
  root_files = tt;
}
begin-IsManager false = no_sinks-IsManager

-- Whatever the names of the outputs are, with or without the frame counter check, with or without
-- ROOT, and however names are resolved: in the tasks that `construct_taskflow_line` makes, every
-- sink that the names gave has a task, which is preceded by the task of the conversion that the
-- sink requires, or by none if it requires raw data; and this task is there, as are those of all the
-- conversions before it, each preceded by that of the one before it, back to the raw data.
pub construct_taskflow_line-connected {ℓ} :
    {Endpoint : Type ℓ} (resolve : (ip port : List ℕ) → Option Endpoint) (has_root : Bool)
    (filenames : List (List ℕ)) (check_frame_counter : Bool) (s : Sink)
    → let m =
        set_output_filenames resolve has_root
          (if check_frame_counter then enable_frame_count_checker no_sinks else no_sinks)
          filenames in
      Memᴰ s (all_sinks m)
      → Memᴰ (sink_task s (source_of s.required_conversion)) (construct_taskflow_line m)
        × IsMade (construct_taskflow_line m) (source_of s.required_conversion)
construct_taskflow_line-connected resolve has_root filenames check s member =
    let m₀ = if check then enable_frame_count_checker no_sinks else no_sinks in
    let m = set_output_filenames resolve has_root m₀ filenames in
    let v = set_output_filenames-IsManager resolve has_root filenames m₀ (begin-IsManager check) in
    let reads = All-Mem CanRead s (all_sinks m) (all_sinks-CanRead m v) member in
    (sink_task-connected m s member reads, source-IsMade m s member reads)
