-- ===== src/Emulators/SendData/Tests.antt =====
-- The sending loop of backend/srs/emulators/FECEmulator.cpp with a generator that counts.
use srs_control.Base.{ℕ, ◌+◌, refl, true, false, List, [], ◌∷◌, arith, leb, if◌then◌else◌}
use srs_control.Converters.Archive.{archive}
use srs_control.Converters.StructSerializer
use srs_control.Emulators.Randomizer.{RandomSource, Config}
use srs_control.Emulators.SendData.Frames.{IsSent}
use srs_control.Emulators.SendData.ReadBack.{AreReceived, start_send_data-received}
use srs_control.Emulators.SendData.{
  World, requests, resets, Round, Sender, create_sender, start_send_data,
}
use srs_control.Sinks.FrameCountChecker.{initial}

abbrev counting : RandomSource
counting = record {
  Generator = ℕ;
  uniform = λ g min max. (if leb (min + g) max then min + g else max, g + 1);
  uniform-bounds = λ g min max h. ground arith;
}

-- The limits that the emulator has by default.
abbrev by_default : Config
by_default = record {
  n_hits = record { min = 0; max = 10 };
  n_markers = record { min = 0; max = 10 };
}

abbrev sender : Sender archive 0 counting by_default
sender = create_sender archive 0 counting by_default 3 1

abbrev world : World
world = record { frame_counter = 4294967294 }

-- Two frames, between which others request and reset the counter, and the switch.
abbrev rounds : List Round
rounds =
    record {
      is_switched_off = false;
      others = [];
      now = 4294967297;
      sent_size = 16;
      cancelled = false;
    }
    ∷ record {
      is_switched_off = false;
      others = requests ∷ resets ∷ requests ∷ [];
      now = 4294967300;
      sent_size = 0;
      cancelled = false;
    }
    ∷ record {
      is_switched_off = true;
      others = [];
      now = 4294967302;
      sent_size = 0;
      cancelled = false;
    }
    ∷ []

start_send_data-received_example :
    (sent : IsSent archive 0 counting by_default [] rounds world sender
      (start_send_data archive 0 counting by_default rounds world sender))
    × AreReceived archive 0 initial [] sent.frames
unfolding create_sender StructSerializer.create
start_send_data-received_example =
    start_send_data-received archive 0 counting by_default rounds world sender initial []
      (omega arith) (omega arith)
      (record { output_lines = refl; buffer_lines = refl; bytes = refl; fits = tt }) (omega arith)
      (omega arith) (omega arith)
