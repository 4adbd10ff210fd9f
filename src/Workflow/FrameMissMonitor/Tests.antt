-- ===== src/Workflow/FrameMissMonitor/Tests.antt =====
-- The monitor of backend/srs/workflow/FrameMissMonitor.hpp with whole numbers in place of doubles.
use srs_control.Base.Int.{ℤ, pos, ◌-ℤ◌, ltb_ℤ, pos_part}
use srs_control.Base.{ℕ, ◌/◌, true, false, List, [], ◌∷◌, arith, ◌==◌, if◌then◌else◌}
use srs_control.Workflow.Floating.{Floating}
use srs_control.Workflow.FrameMissMonitor.Batches.{IsBatched, main_loop-IsBatched, counts_read}
use srs_control.Workflow.FrameMissMonitor.{Config, Sample, create, main_loop}

abbrev whole : Floating
whole = record {
  Double = ℤ;
  of_int = λ x. x;
  of_unsigned = λ n. pos n;
  divide = λ x y. (if pos_part y == 0 then pos 0 else pos (pos_part x / pos_part y));
  times = λ x y. x;
  minus = λ x y. x -ℤ y;
  is_above = λ x y. ltb_ℤ y x;
}

abbrev pairs : Config
pairs = record { sample_size = 2; sample_time_ms = pos 100 }

abbrev sample_of : ℕ → Sample
sample_of n = record { is_stopped = false; frame_drop_count = pos n }

-- Two reports, a sample that is left over, and the end.
abbrev samples : List Sample
samples =
    sample_of 4
    ∷ sample_of 8
    ∷ sample_of 10
    ∷ sample_of 14
    ∷ sample_of 15
    ∷ record { is_stopped = true; frame_drop_count = pos 16 }
    ∷ []

main_loop-IsBatched_example :
    IsBatched whole pairs (counts_read samples) (main_loop whole pairs (create whole pairs) samples)
main_loop-IsBatched_example = main_loop-IsBatched whole pairs samples (omega arith)
