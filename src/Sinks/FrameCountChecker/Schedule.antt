-- ===== src/Sinks/FrameCountChecker/Schedule.antt =====
-- Calls of `register_frame_counter` on the lines of the pipeline, interleaved in every way.
use srs_control.Base.{ℕ, ◌≡◌, Bool, List, [], ◌∷◌, some, get_elem?, set, replicate}
use srs_control.Sinks.FrameCountChecker.{
  Counters, initial, Phase, called, loaded, swapped, returned, advance,
}

-- The counters, the call on each line, and the frame counters whose swap has been made, the last
-- one first (which the program does not keep).
pub record System : Type 0 where
  pub counters : Counters
  pub lines : List Phase
  pub registered : List ℕ

abbrev pub start : (n_lines : ℕ) → System
start n_lines = record { counters = initial; lines = replicate n_lines returned; registered = [] }

-- The history grows by a swap that succeeds.
abbrev pub note : Phase → Phase → List ℕ → List ℕ
note (loaded frame_counter _) (swapped _) registered = frame_counter ∷ registered
note _ _ registered = registered

abbrev pub after : System → (line : ℕ) → Phase → Counters × Phase → System
after s line phase (counters, phase') = record {
  counters = counters;
  lines = set s.lines line phase';
  registered = note phase phase' s.registered;
}

-- A line that is free takes the next frame, or a call makes one step.
pub data Step (s : System) : System → Type 0 where
  take_frame :
      (line frame_counter : ℕ)
      → get_elem? s.lines line ≡ some returned
      → Step s (record s { lines = set s.lines line (called frame_counter) })
  call_step :
      (line : ℕ) (spurious : Bool) (phase : Phase)
      → get_elem? s.lines line ≡ some phase
      → Step s (after s line phase (advance spurious s.counters phase))

pub data Reach (n_lines : ℕ) : System → Type 0 where
  here : Reach n_lines (start n_lines)
  next : {s t : System} → Reach n_lines s → Step s t → Reach n_lines t
