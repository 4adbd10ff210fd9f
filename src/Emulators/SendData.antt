-- ===== src/Emulators/SendData.antt =====
-- backend/srs/emulators/FECEmulator.cpp: the loop that sends random frames, the frame counter that
-- the emulators of backend/srs/emulators/World.hpp share, and the member of
-- backend/srs/sinks/UDPWriter.hpp that sends a frame. The waits are left out; what they and the
-- other threads bring about stands in a `Round`, one for each time the loop comes to its condition.
pub mod Datagrams
pub mod Rounds
pub mod Frames
pub mod ReadBack
mod Tests
use srs_control.Base.Expected.{Expected, value, unexpected}
use srs_control.Base.{
  ℕ, zero, suc, ◌+◌, ◌%◌, ◌^◌, ◌==◌, Bool, List, [], ◌∷◌, ◌++◌, length, get_or, if◌then◌else◌,
}
use srs_control.Converters.StructSerializer
use srs_control.Converters.StructSerializer.{Error, StructSerializer}
use srs_control.Converters.Zpp.{Zpp}
use srs_control.Data.Structs.{StructData, empty_struct}
use srs_control.Emulators.Randomizer.{RandomSource, Config, randomize_data_struct}

pub record World : Type 0 where
  pub frame_counter : ℕ

-- The counter is an atomic 32-bit number.
unfoldable pub request_frame_counter : World → ℕ × World
request_frame_counter w =
    (w.frame_counter, record w { frame_counter = (w.frame_counter + 1) % 2 ^ 32 })

unfoldable pub reset_frame_counter : World → World
reset_frame_counter w = record w { frame_counter = 0 }

-- What other emulators do to the counter: they request it for a frame, and one that is switched on
-- resets it (`do_if_acq_on`).
pub data Other : Type 0 where
  requests resets : Other

unfoldable pub done_by_others : List Other → World → World
done_by_others [] w = w
done_by_others (requests ∷ others) w = done_by_others others (request_frame_counter w).1
done_by_others (resets ∷ others) w = done_by_others others (reset_frame_counter w)

-- What a round meets: whether the emulator is switched off, what the others did since the last
-- round, the clock, how many bytes the socket takes, and whether the second timer ends the wait.
pub record Round : Type 0 where
  pub is_switched_off : Bool
  pub others : List Other
  pub now : ℕ
  pub sent_size : ℕ
  pub cancelled : Bool

pub data Status : Type 0 where
  running switched_off failed cancelled : Status

-- `send_sync_message`: the socket is given a message that is not empty.
unfoldable pub send_sync_message : (input_data : List ℕ) (sent_size : ℕ) → ℕ
send_sync_message input_data sent_size = if length input_data == 0 then 0 else sent_size

module _ (z : Zpp) (padding : ℕ) (r : RandomSource) (config : Config) where
  -- The members that the loop uses, and its `total_size`; `datagrams` are the messages so far.
  pub record Sender : Type 0 where
    pub fec_id : ℕ
    pub struct_serializer : StructSerializer
    pub data_struct : StructData
    pub rand_gen : r.Generator
    pub n_frames_sent : ℕ
    pub total_size : ℕ
    pub datagrams : List (List ℕ)

  -- `World::init` gives the emulators the numbers from 0 on, of 8 bits.
  unfoldable pub create_sender : (index : ℕ) → r.Generator → Sender
  create_sender index g = record {
    fec_id = index % 2 ^ 8;
    struct_serializer = StructSerializer.create 1;
    data_struct = empty_struct;
    rand_gen = g;
    n_frames_sent = 0;
    total_size = 0;
    datagrams = [];
  }

  unfoldable pub construct_binary_data :
      (now : ℕ) → World → Sender → World × Sender × Expected Error ℕ
  construct_binary_data now w s =
      let (frame_counter, w) = request_frame_counter w in
      let (data_struct, g) =
        randomize_data_struct r config s.data_struct now
          (record { frame_counter = frame_counter; fec_id = s.fec_id }) s.rand_gen in
      let (serializer, res) =
        StructSerializer.convert z padding s.struct_serializer data_struct 0 in
      (w, record s { data_struct = data_struct; rand_gen = g; struct_serializer = serializer }, res)

  unfoldable pub send_frame : (sent_size : ℕ) → Sender → Sender
  send_frame sent_size s =
      let read_str = get_or s.struct_serializer.output_data 0 [] in
      let send_size = send_sync_message read_str sent_size in
      record s {
        total_size = (s.total_size + send_size) % 2 ^ 64;
        n_frames_sent = (s.n_frames_sent + 1) % 2 ^ 64;
        datagrams = s.datagrams ++ read_str ∷ [];
      }

  unfoldable pub send_result : Round → World × Sender × Expected Error ℕ → Status × World × Sender
  send_result round (w, s, unexpected e) = (failed, w, s)
  send_result round (w, s, value _) =
      (if round.cancelled then cancelled else running, w, send_frame round.sent_size s)

  -- Once through the body of the loop, its condition included.
  unfoldable pub send_round : Round → World → Sender → Status × World × Sender
  send_round round w s =
      let w = done_by_others round.others w in
      if round.is_switched_off
      then (switched_off, w, s)
      else send_result round (construct_binary_data round.now w s)

  unfoldable pub start_send_data : List Round → World → Sender → Status × World × Sender
  start_send_data [] w s = (running, w, s)
  start_send_data (round ∷ rounds) w s =
      let (status, w, s) = send_round round w s in
      elim status [
        | running ↦ start_send_data rounds w s
        | switched_off ↦ (switched_off, w, s)
        | failed ↦ (failed, w, s)
        | cancelled ↦ (cancelled, w, s)
      ]
