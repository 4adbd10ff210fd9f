-- ===== src/Sinks/FrameCountChecker/Tests.antt =====
-- The drop counter on a run of two lines, the second of which is overtaken, and on bytes that the
-- serializer writes.
use native.Mathlib.Omega.{arith}
use srs_control.Base.Int.{pos, negsuc, ◌+ℤ◌, ◌-ℤ◌}
use srs_control.Base.{◌+◌, ◌≡◌, refl, false, true, [], ◌∷◌, length}
use srs_control.Sinks.FrameCountChecker.Drops.{
  drop_count_balance, drop_count_missing, highest, repeats,
}
use srs_control.Sinks.FrameCountChecker.Schedule.{System, Reach, here, next, take_frame, call_step}
use srs_control.Sinks.FrameCountChecker.{
  called, loaded, swapped, returned, advance, exchange, drop_of,
}

-- Frame 3 on line 1 overtakes frame 1 on line 0, whose swap then fails once.
abbrev overtaken : System
overtaken = record {
  counters = record { last_frame_counter = 3; frame_drop_counter = pos 1 };
  lines = returned ∷ returned ∷ [];
  registered = 1 ∷ 3 ∷ [];
}

overtaken-Reach : Reach 2 overtaken
unfolding advance exchange drop_of ◌+ℤ◌ ◌-ℤ◌
overtaken-Reach =
    let r0 = here in
    let r1 = next r0 (take_frame 0 1 refl) in
    let r2 = next r1 (take_frame 1 3 refl) in
    let r3 = next r2 (call_step 0 false (called 1) refl) in
    let r4 = next r3 (call_step 1 false (called 3) refl) in
    let r5 = next r4 (call_step 1 false (loaded 3 0) refl) in
    let r6 = next r5 (call_step 0 false (loaded 1 0) refl) in
    let r7 = next r6 (call_step 0 true (loaded 1 3) refl) in
    let r8 = next r7 (call_step 0 false (loaded 1 3) refl) in
    let r9 = next r8 (call_step 0 false (swapped (negsuc 1)) refl) in
    next r9 (call_step 1 false (swapped (pos 3)) refl)

drop_count_balance_example :
    overtaken.counters.frame_drop_counter +ℤ pos (length overtaken.registered)
    ≡ pos (highest overtaken.registered + repeats overtaken.registered)
drop_count_balance_example = drop_count_balance 2 overtaken overtaken-Reach (refl, (refl, tt))

-- Frames 1 and 3 of three: one is missing.
drop_count_missing_example :
    overtaken.counters.frame_drop_counter
    ≡ pos (highest overtaken.registered) -ℤ pos (length overtaken.registered)
drop_count_missing_example =
    drop_count_missing 2 overtaken overtaken-Reach (refl, (refl, tt))
      (omega arith, (omega arith, tt), (omega arith, tt, tt))
