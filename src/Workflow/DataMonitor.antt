-- ===== src/Workflow/DataMonitor.antt =====
-- backend/srs/workflow/DataMonitor.cpp and .hpp: the rates that are printed from time to time. The
-- totals are unsigned 64-bit numbers, which the other threads count up, and a rate is made of what
-- was added to a total since the last time. Colours and the layout of the line are left out.
pub mod Intervals
mod Tests
use srs_control.Base.{
  ℕ, ◌+◌, ◌-◌, ◌/◌, ◌%◌, ◌^◌, Bool, List, [], ◌∷◌, ◌++◌, ◌==◌, ◌||◌, if◌then◌else◌,
}
use srs_control.Workflow.Floating.{Floating}

-- The five totals, and what was added to each of them in an interval.
pub record Totals : Type 0 where
  pub read_data_bytes : ℕ
  pub write_data_bytes : ℕ
  pub drop_data_bytes : ℕ
  pub processed_hit_num : ℕ
  pub frame_counts : ℕ

-- The difference of two unsigned numbers of 64 bits.
unfoldable pub difference : (total last : ℕ) → ℕ
difference total last = (total + (2 ^ 64 - last)) % 2 ^ 64

unfoldable pub differences : (totals last : Totals) → Totals
differences totals last = record {
  read_data_bytes = difference totals.read_data_bytes last.read_data_bytes;
  write_data_bytes = difference totals.write_data_bytes last.write_data_bytes;
  drop_data_bytes = difference totals.drop_data_bytes last.drop_data_bytes;
  processed_hit_num = difference totals.processed_hit_num last.processed_hit_num;
  frame_counts = difference totals.frame_counts last.frame_counts;
}

-- What a turn of the loop finds: whether the monitor is cancelled, or its wait is aborted, the totals,
-- and the clock in nanoseconds.
pub record Cycle : Type 0 where
  pub is_cancelled : Bool
  pub is_aborted : Bool
  pub totals : Totals
  pub time_now : ℕ

module _ (f : Floating) where
  -- A line of the console, with its unit.
  pub record Line : Type 0 where
    pub read_speed : f.Double
    pub frame_rate : f.Double
    pub write_speed : f.Double
    pub drop_speed : f.Double
    pub is_kilobytes : Bool

  -- The lines so far are kept here only.
  pub record DataMonitor : Type 0 where
    pub last : Totals
    pub last_print_time : ℕ
    pub current_received_bytes_mbps : f.Double
    pub current_write_bytes_mbps : f.Double
    pub current_drop_bytes_mbps : f.Double
    pub current_hits_ps : f.Double
    pub lines : List Line

  unfoldable pub create : (time_now : ℕ) → DataMonitor
  create time_now = record {
    last = record {
      read_data_bytes = 0;
      write_data_bytes = 0;
      drop_data_bytes = 0;
      processed_hit_num = 0;
      frame_counts = 0;
    };
    last_print_time = time_now;
    current_received_bytes_mbps = f.of_unsigned 0;
    current_write_bytes_mbps = f.of_unsigned 0;
    current_drop_bytes_mbps = f.of_unsigned 0;
    current_hits_ps = f.of_unsigned 0;
    lines = [];
  }

  -- How full the buffers are in percent, and none without a frame.
  unfoldable pub frame_rate_of : (buffer_size : ℕ) → (bytes_read frame_counts_diff : ℕ) → f.Double
  frame_rate_of buffer_size bytes_read frame_counts_diff =
      if frame_counts_diff == 0
      then f.of_unsigned 0
      else f.times
          (f.divide (f.divide (f.of_unsigned bytes_read) (f.of_unsigned frame_counts_diff))
            (f.of_unsigned buffer_size))
          (f.of_unsigned 100)

  unfoldable pub set_speed_string : DataMonitor → (frame_rate : f.Double) → Line
  set_speed_string m frame_rate =
      let is_slow = f.is_above (f.of_unsigned 1) m.current_received_bytes_mbps in
      let scale = if is_slow then f.of_unsigned 1000 else f.of_unsigned 1 in
      record {
        read_speed = f.times scale m.current_received_bytes_mbps;
        frame_rate = frame_rate;
        write_speed = f.times scale m.current_write_bytes_mbps;
        drop_speed = f.times scale m.current_drop_bytes_mbps;
        is_kilobytes = is_slow;
      }

  unfoldable pub print_line : DataMonitor → (frame_rate : f.Double) → DataMonitor
  print_line m frame_rate = record m { lines = m.lines ++ set_speed_string m frame_rate ∷ [] }

  -- The body of the loop, after its wait.
  unfoldable pub print_totals :
      (buffer_size : ℕ) → DataMonitor → Totals → (time_now : ℕ) → DataMonitor
  print_totals buffer_size m totals time_now =
      let diff = differences totals m.last in
      let time_duration_us = f.of_unsigned ((time_now - m.last_print_time) / 1000) in
      let m = record m {
        last = totals;
        last_print_time = time_now;
        current_received_bytes_mbps =
            f.divide (f.of_unsigned diff.read_data_bytes) time_duration_us;
        current_write_bytes_mbps = f.divide (f.of_unsigned diff.write_data_bytes) time_duration_us;
        current_drop_bytes_mbps = f.divide (f.of_unsigned diff.drop_data_bytes) time_duration_us;
        current_hits_ps =
            f.times (f.divide (f.of_unsigned diff.processed_hit_num) time_duration_us)
              (f.of_unsigned 1000000);
      } in
      print_line m (frame_rate_of buffer_size diff.read_data_bytes diff.frame_counts)

  unfoldable pub print_cycle : (buffer_size : ℕ) → DataMonitor → List Cycle → DataMonitor
  print_cycle buffer_size m [] = m
  print_cycle buffer_size m (c ∷ cycles) =
      let rest = print_cycle buffer_size (print_totals buffer_size m c.totals c.time_now) cycles in
      if c.is_cancelled || c.is_aborted then m else rest
