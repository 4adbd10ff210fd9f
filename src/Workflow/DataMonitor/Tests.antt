-- ===== src/Workflow/DataMonitor/Tests.antt =====
-- The monitor of backend/srs/workflow/DataMonitor.cpp with whole numbers in place of doubles, on a
-- total that passes the end of its 64 bits.
use srs_control.Base.Int.{pos_part}
use srs_control.Base.{ℕ, ◌*◌, ◌-◌, ◌/◌, ◌==◌, true, false, List, [], ◌∷◌, arith, ltb, if◌then◌else◌}
use srs_control.Workflow.DataMonitor.Intervals.{IsCounted, printed, print_cycle-IsCounted}
use srs_control.Workflow.DataMonitor.{Cycle, create, print_cycle}
use srs_control.Workflow.Floating.{Floating}

abbrev whole : Floating
whole = record {
  Double = ℕ;
  of_int = λ x. pos_part x;
  of_unsigned = λ n. n;
  divide = λ x y. (if y == 0 then 0 else x / y);
  times = λ x y. x * y;
  minus = λ x y. x - y;
  is_above = λ x y. ltb y x;
}

abbrev cycle : (read time_now : ℕ) → Cycle
cycle read time_now = record {
  is_cancelled = false;
  is_aborted = false;
  totals = record {
    read_data_bytes = read;
    write_data_bytes = 10;
    drop_data_bytes = 0;
    processed_hit_num = 7;
    frame_counts = 3;
  };
  time_now = time_now;
}

abbrev cycles : List Cycle
cycles =
    cycle 18446744073709551615 1000000
    ∷ cycle 5 2000000
    ∷ record (cycle 9 3000000) { is_aborted = true }
    ∷ []

print_cycle-IsCounted_example :
    IsCounted whole 1500 0 (printed cycles) (print_cycle whole 1500 (create whole 0) cycles)
print_cycle-IsCounted_example =
    print_cycle-IsCounted whole 1500 0 cycles (omega arith, (omega arith, (omega arith, tt)))
