-- ===== src/Workflow/FrameMissMonitor.antt =====
-- backend/srs/workflow/FrameMissMonitor.hpp: averages of the count of dropped frames over so many
-- samples. The loop never waits for the clock that it sets, so a round needs no event but the count
-- that it reads. The sums of samples stay within 64 bits.
pub mod Batches
mod Tests
use srs_control.Base.Int.{ℤ, pos, ◌+ℤ◌}
use srs_control.Base.{ℕ, Bool, true, false, List, [], ◌∷◌, ◌++◌, length, ◌==◌, if◌then◌else◌}
use srs_control.Workflow.Floating.{Floating}

pub record Config : Type 0 where
  pub sample_size : ℕ
  pub sample_time_ms : ℤ

-- What a round finds: whether the monitor was stopped, and the count of dropped frames.
pub record Sample : Type 0 where
  pub is_stopped : Bool
  pub frame_drop_count : ℤ

-- `std::ranges::fold_left` with `std::plus`.
unfoldable pub fold_left : ℤ → List ℤ → ℤ
fold_left sum [] = sum
fold_left sum (x ∷ xs) = fold_left (sum +ℤ x) xs

module _ (f : Floating) (config : Config) where
  -- `batches` are the samples of the reports so far and `warnings` the numbers of frames that were
  -- warned of, which the program does not keep.
  pub record FrameMissMonitor : Type 0 where
    pub samples : List ℤ
    pub last_average_drop_count : f.Double
    pub batches : List (List ℤ)
    pub warnings : List f.Double

  unfoldable pub create : FrameMissMonitor
  create = record {
    samples = [];
    last_average_drop_count = f.of_int (pos 0);
    batches = [];
    warnings = [];
  }

  unfoldable pub average : List ℤ → f.Double
  average samples = f.divide (f.of_int (fold_left (pos 0) samples)) (f.of_unsigned (length samples))

  unfoldable pub report : FrameMissMonitor → FrameMissMonitor
  report m =
      let diff = f.minus (average m.samples) m.last_average_drop_count in
      record m {
        last_average_drop_count = average m.samples;
        samples = [];
        batches = m.batches ++ m.samples ∷ [];
        warnings =
            if f.is_above diff (f.of_int (pos 1)) then m.warnings ++ diff ∷ [] else m.warnings;
      }

  -- The body of the loop.
  unfoldable pub sample : FrameMissMonitor → (frame_drop_count : ℤ) → FrameMissMonitor
  sample m frame_drop_count =
      let m = record m { samples = m.samples ++ frame_drop_count ∷ [] } in
      if length m.samples == config.sample_size then report m else m

  unfoldable pub main_loop : FrameMissMonitor → List Sample → FrameMissMonitor
  main_loop m [] = m
  main_loop m (s ∷ samples) =
      let rest = main_loop (sample m s.frame_drop_count) samples in if s.is_stopped then m else rest
