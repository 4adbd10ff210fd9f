-- ===== src/Sinks/FrameCountChecker.antt =====
-- backend/srs/sinks/FrameCountChecker.cpp and .hpp: how many frames are missing, by the frame
-- counters, which are unsigned 32-bit numbers. The lines of the pipeline register counters at the
-- same time; `register_frame_counter` goes to its compare-and-swap and its update of
-- `frame_drop_counter_` in atomic steps, which are `advance` here. The sums stay far within the 64
-- bits of the two atomics.
pub mod Schedule
pub mod Drops
pub mod Analyze
mod Tests
use srs_control.Base.Expected.{Expected, value, unexpected}
use srs_control.Base.Int.{ℤ, pos, negsuc, ◌+ℤ◌, ◌-ℤ◌, sub_ℕ, ltb_ℤ}
use srs_control.Base.{
  ℕ, ◌+◌, ◌-◌, ◌≤◌, ◌<◌, Bool, true, false, List, Option, none, some, leb, ltb, ◌==◌, if◌then◌else◌,
  length,
}
use srs_control.Converters.StructDeserializer.{get_header}
use srs_control.Converters.Zpp.{Zpp}

pub data Error : Type 0 where
  size_too_small cannot_deserialize : Error

unfoldable pub extract_frame_counter : Zpp → (binary_data : List ℕ) → Expected Error ℕ
extract_frame_counter z binary_data =
    if leb (length binary_data) 16
    then unexpected size_too_small
    else elim (get_header z binary_data) [
      | none ↦ unexpected cannot_deserialize
      | some (header, rest) ↦ value header.frame_counter
    ]

-- The two atomics.
pub record Counters : Type 0 where
  pub last_frame_counter : ℕ
  pub frame_drop_counter : ℤ

abbrev pub initial : Counters
initial = record { last_frame_counter = 0; frame_drop_counter = pos 0 }

-- Where a call of `register_frame_counter` stands: before the load, before the compare-and-swap
-- with the value that it expects, before the update of the drop counter, and after.
pub data Phase : Type 0 where
  called : (frame_counter : ℕ) → Phase
  loaded : (frame_counter last_value : ℕ) → Phase
  swapped : (diff : ℤ) → Phase
  returned : Phase

-- `(diff > 1) ? diff - 1 : (diff < 0) ? -1 : 0`, what the call adds to the drop counter.
unfoldable pub drop_of : (diff : ℤ) → ℤ
drop_of diff =
    if ltb_ℤ (pos 1) diff then diff -ℤ pos 1 else if ltb_ℤ diff (pos 0) then negsuc 0 else pos 0

-- The swap: it fails if another call came between, and may fail for no reason (`spurious`); then
-- the value that was found is expected next.
unfoldable pub exchange :
    (spurious : Bool) (frame_counter last_value : ℕ) → Counters → Counters × Phase
exchange spurious frame_counter last_value c =
    let diff = sub_ℕ frame_counter last_value in
    let insert_value = if ltb_ℤ (pos 0) diff then frame_counter else last_value in
    if spurious
    then (c, loaded frame_counter c.last_frame_counter)
    else if c.last_frame_counter == last_value
    then (record c { last_frame_counter = insert_value }, swapped diff)
    else (c, loaded frame_counter c.last_frame_counter)

-- One atomic step of a call.
unfoldable pub advance : (spurious : Bool) → Counters → Phase → Counters × Phase
unfolding exchange
advance spurious c (called frame_counter) = (c, loaded frame_counter c.last_frame_counter)
advance spurious c (loaded frame_counter last_value) = exchange spurious frame_counter last_value c
advance spurious c (swapped diff) =
    (record c { frame_drop_counter = c.frame_drop_counter +ℤ drop_of diff }, returned)
advance spurious c returned = (c, returned)

-- A call that nothing disturbs.
unfoldable pub register_frame_counter : Counters → (frame_counter : ℕ) → Counters
unfolding advance
register_frame_counter c frame_counter =
    let (c, phase) = advance false c (called frame_counter) in
    let (c, phase) = advance false c phase in let (c, phase) = advance false c phase in c

unfoldable pub analyze_frame_counter :
    Zpp → Counters → (binary_data : List ℕ) → Counters × Expected Error ℕ
analyze_frame_counter z c binary_data = elim (extract_frame_counter z binary_data) [
  | unexpected e ↦ (c, unexpected e)
  | value frame_counter ↦ (register_frame_counter c frame_counter, value frame_counter)
]
