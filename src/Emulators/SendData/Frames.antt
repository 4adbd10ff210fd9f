-- ===== src/Emulators/SendData/Frames.antt =====
-- backend/srs/emulators/FECEmulator.cpp: the frames that the sending loop sends.
use srs_control.Base.{
  ℕ, ◌+◌, ◌%◌, ◌^◌, ◌<◌, ◌≡◌, refl, ap, ap₂, ◌∙◌, sym, subst, true, false, List, [], ◌∷◌, ◌++◌,
  length, arith, Bool-cases, inl, inr, if◌then◌else◌,
}
use mathlib.Core.List.{append_assoc, append-nil}
use srs_control.Converters.Wire.{elements}
use srs_control.Converters.Zpp.{Zpp}
use srs_control.Data.Structs.{StructData}
use srs_control.Emulators.Randomizer.Bounds.{IsConfig, IsRandomFrame}
use srs_control.Emulators.Randomizer.{RandomSource, Config}
use srs_control.Emulators.SendData.Datagrams.{IsOutput, datagram, left_behind}
use srs_control.Emulators.SendData.{
  World, Round, Status, running, switched_off, failed, cancelled, Sender, send_round,
  start_send_data,
}
use srs_control.Emulators.SendData.Rounds.{counter_after, IsRound, send_round_on}

-- The rounds that send a frame: those before the emulator is switched off, up to a cancelled one.
abbrev pub sending : List Round → List Round
sending [] = []
sending (round ∷ rounds) =
    let rest = sending rounds in
    if round.is_switched_off then [] else if round.cancelled then round ∷ [] else round ∷ rest

-- How the loop ends, or that it goes on.
abbrev pub ending : List Round → Status
ending [] = running
ending (round ∷ rounds) =
    let rest = ending rounds in
    if round.is_switched_off then switched_off else if round.cancelled then cancelled else rest

-- One random frame for each round, the counter going on from `frame_counter` with the requests of
-- this emulator and what the others do.
abbrev pub AreFrames : Config → (fec_id frame_counter : ℕ) → List Round → List StructData → Type 0
AreFrames c fec_id frame_counter [] [] = Unit
AreFrames c fec_id frame_counter [] (_ ∷ _) = ⊥
AreFrames c fec_id frame_counter (_ ∷ _) [] = ⊥
AreFrames c fec_id frame_counter (round ∷ rounds) (frame ∷ frames) =
    let requested = counter_after round.others frame_counter in
    IsRandomFrame c round.now (record { frame_counter = requested; fec_id = fec_id }) frame
    × AreFrames c fec_id ((requested + 1) % 2 ^ 32) rounds frames

-- What is sent for some frames, when the output begins with these elements behind its header.
abbrev pub datagrams_of : Zpp → (padding : ℕ) → (es : List ℕ) → List StructData → List (List ℕ)
datagrams_of z p es [] = []
datagrams_of z p es (f ∷ frames) =
    datagram z p f es ∷ datagrams_of z p (elements p f ++ left_behind z p f es) frames

module _ (z : Zpp) (p : ℕ) (r : RandomSource) (c : Config) where
  -- The frames that the loop sends, and what it leaves.
  pub record IsSent (es : List ℕ) (rounds : List Round) (w : World) (s : Sender z p r c)
      (result : Status × World × Sender z p r c) : Type 0 where
    pub frames : List StructData
    pub random : AreFrames c s.fec_id w.frame_counter (sending rounds) frames
    pub datagrams : result.2.datagrams ≡ s.datagrams ++ datagrams_of z p es frames
    pub n_frames_sent : result.2.n_frames_sent ≡ (s.n_frames_sent + length frames) % 2 ^ 64
    pub status : result.0 ≡ ending rounds

  abbrev after_round :
      List Round → Status × World × Sender z p r c → Status × World × Sender z p r c
  after_round rounds (running, w, s) = start_send_data z p r c rounds w s
  after_round rounds (switched_off, w, s) = (switched_off, w, s)
  after_round rounds (failed, w, s) = (failed, w, s)
  after_round rounds (cancelled, w, s) = (cancelled, w, s)

  after_round-send_round :
      (round : Round) (rounds : List Round) (w : World) (s : Sender z p r c)
      → start_send_data z p r c (round ∷ rounds) w s
        ≡ after_round rounds (send_round z p r c round w s)
  unfolding start_send_data
  after_round-send_round round rounds w s =
      with_status (send_round z p r c round w s).0 (send_round z p r c round w s).1
        (send_round z p r c round w s).2
    where
      with_status :
          (status : Status) (w : World) (s : Sender z p r c)
          → elim status [
            | running ↦ start_send_data z p r c rounds w s
            | switched_off ↦ (switched_off, w, s)
            | failed ↦ (failed, w, s)
            | cancelled ↦ (cancelled, w, s)
          ]
            ≡ after_round rounds (status, w, s)
      with_status running w s = refl
      with_status switched_off w s = refl
      with_status failed w s = refl
      with_status cancelled w s = refl

  module _ (round : Round) (rounds : List Round) (w : World) (s : Sender z p r c)
      (n : s.n_frames_sent < 2 ^ 64) (es : List ℕ) where
    IsSent-switched_off :
        round.is_switched_off ≡ true
        → IsSent es (round ∷ rounds) w s (start_send_data z p r c (round ∷ rounds) w s)
    unfolding start_send_data send_round
    IsSent-switched_off off = rw off (record {
      frames = [];
      random = tt;
      datagrams = sym (append-nil s.datagrams);
      n_frames_sent = omega arith;
      status = refl;
    })

    module _ (frame : StructData) (w' : World) (s' : Sender z p r c)
        (on : round.is_switched_off ≡ false)
        (e : send_round z p r c round w s
          ≡ (if round.cancelled then cancelled else running, w', s'))
        (i : IsRound z p r c round w s frame w' s' es) where
      IsSent-cancelled :
          round.cancelled ≡ true
          → IsSent es (round ∷ rounds) w s (start_send_data z p r c (round ∷ rounds) w s)
      unfolding start_send_data
      IsSent-cancelled stop =
          rw (after_round-send_round round rounds w s, e, on, stop)
            (record {
              frames = frame ∷ [];
              random = (i.random, tt);
              datagrams = i.datagrams;
              n_frames_sent = i.n_frames_sent;
              status = refl;
            })

      IsSent-sending :
          round.cancelled ≡ false
          → IsSent
              (elements p frame ++ left_behind z p frame es)
              rounds
              w'
              s'
              (start_send_data z p r c rounds w' s')
          → IsSent es (round ∷ rounds) w s (start_send_data z p r c (round ∷ rounds) w s)
      unfolding start_send_data
      IsSent-sending go rest =
          let next = elements p frame ++ left_behind z p frame es in
          rw (after_round-send_round round rounds w s, e, on, go)
            (record {
              frames = frame ∷ rest.frames;
              random = (
                i.random,
                subst (λ (k : ℕ × ℕ). AreFrames c k.0 k.1 (sending rounds) rest.frames)
                    (ap₂ (λ a b. (a, b)) i.fec_id i.frame_counter) rest.random,
              );
              datagrams =
                  rest.datagrams
                  ∙ ap (λ sent. sent ++ datagrams_of z p next rest.frames) i.datagrams
                  ∙ append_assoc s.datagrams (datagram z p frame es ∷ [])
                      (datagrams_of z p next rest.frames);
              n_frames_sent = omega (arith, rest.n_frames_sent, i.n_frames_sent);
              status = rest.status;
            })

  -- While the program sends, no frame is refused: each round that sends adds one random frame to
  -- the datagrams, in the wire format, and behind it the elements that longer ones left.
  pub start_send_data_lem :
      (rounds : List Round) (w : World) (s : Sender z p r c) (es : List ℕ)
      → p < 2 ^ 16
      → IsConfig c
      → IsOutput es s.struct_serializer
      → s.n_frames_sent < 2 ^ 64
      → IsSent es rounds w s (start_send_data z p r c rounds w s)
  unfolding start_send_data
  start_send_data_lem [] w s es q h k n = record {
    frames = [];
    random = tt;
    datagrams = sym (append-nil s.datagrams);
    n_frames_sent = omega arith;
    status = refl;
  }
  start_send_data_lem (round ∷ rounds) w s es q h k n = elim (Bool-cases round.is_switched_off) [
    | inl off ↦ IsSent-switched_off round rounds w s n es off
    | inr on ↦
        let (frame, w', s', e, i) = send_round_on z p r c round w s es q h k on in
        elim (Bool-cases round.cancelled) [
          | inl stop ↦ IsSent-cancelled round rounds w s n es frame w' s' on e i stop
          | inr go ↦ IsSent-sending round rounds w s n es frame w' s' on e i go (
              start_send_data_lem rounds w' s' (elements p frame ++ left_behind z p frame es) q h
                i.serializer (omega (arith, i.n_frames_sent)))
        ]
  ]
