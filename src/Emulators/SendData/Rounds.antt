-- ===== src/Emulators/SendData/Rounds.antt =====
-- backend/srs/emulators/FECEmulator.cpp: one round of the sending loop.
use srs_control.Base.{
  ℕ, ◌+◌, ◌%◌, ◌^◌, ◌<◌, ◌≡◌, refl, ap, subst, false, List, [], ◌∷◌, ◌++◌, arith, if◌then◌else◌,
  get_or,
}
use srs_control.Converters.Zpp.{Zpp}
use srs_control.Data.Structs.{StructData}
use srs_control.Emulators.Randomizer.Bounds.{
  IsConfig, IsRandomFrame, randomize_data_struct-IsRandomFrame,
}
use srs_control.Emulators.Randomizer.{RandomSource, Config}
use srs_control.Emulators.SendData.Datagrams.{IsOutput, datagram, left_behind, convert-IsOutput}
use srs_control.Converters.Wire.{elements}
use srs_control.Emulators.SendData.{
  World, Other, requests, resets, request_frame_counter, reset_frame_counter, done_by_others, Round,
  running, cancelled, Sender, construct_binary_data, send_frame, send_result, send_round,
}

-- The counter after what others did.
abbrev pub counter_after : List Other → ℕ → ℕ
counter_after [] n = n
counter_after (requests ∷ others) n = counter_after others ((n + 1) % 2 ^ 32)
counter_after (resets ∷ others) n = counter_after others 0

done_by_others-counter_after :
    (others : List Other) (w : World)
    → (done_by_others others w).frame_counter ≡ counter_after others w.frame_counter
unfolding done_by_others request_frame_counter reset_frame_counter
done_by_others-counter_after [] w = refl
done_by_others-counter_after (requests ∷ others) w =
    done_by_others-counter_after others (request_frame_counter w).1
done_by_others-counter_after (resets ∷ others) w =
    done_by_others-counter_after others (reset_frame_counter w)

pub counter_after-lt : (others : List Other) (n : ℕ) → n < 2 ^ 32 → counter_after others n < 2 ^ 32
counter_after-lt [] n h = h
counter_after-lt (requests ∷ others) n h = counter_after-lt others ((n + 1) % 2 ^ 32) (omega arith)
counter_after-lt (resets ∷ others) n h = counter_after-lt others 0 (omega arith)

module _ (z : Zpp) (p : ℕ) (r : RandomSource) (c : Config) where
  -- What a round that sends leaves.
  pub record IsRound (round : Round) (w : World) (s : Sender z p r c) (frame : StructData)
      (w' : World) (s' : Sender z p r c) (es : List ℕ) : Type 0 where
    pub random :
        IsRandomFrame c round.now
          (record { frame_counter = counter_after round.others w.frame_counter; fec_id = s.fec_id })
          frame
    pub frame_counter : w'.frame_counter ≡ (counter_after round.others w.frame_counter + 1) % 2 ^ 32
    pub fec_id : s'.fec_id ≡ s.fec_id
    pub serializer : IsOutput (elements p frame ++ left_behind z p frame es) s'.struct_serializer
    pub n_frames_sent : s'.n_frames_sent ≡ (s.n_frames_sent + 1) % 2 ^ 64
    pub datagrams : s'.datagrams ≡ s.datagrams ++ datagram z p frame es ∷ []

  pub send_round_on :
      (round : Round) (w : World) (s : Sender z p r c) (es : List ℕ)
      → p < 2 ^ 16
      → IsConfig c
      → IsOutput es s.struct_serializer
      → round.is_switched_off ≡ false
      → (frame : StructData) × (w' : World) × (s' : Sender z p r c) × (send_round z p r c round w s
          ≡ (if round.cancelled then cancelled else running, w', s'))
        × IsRound round w s frame w' s' es
  unfolding send_round construct_binary_data send_frame request_frame_counter send_result
  send_round_on round w s es q h k on =
      let w₁ = done_by_others round.others w in
      let constructed = construct_binary_data z p r c round.now w₁ s in
      let counter = done_by_others-counter_after round.others w in
      let input = constructed.1.data_struct in
      let random =
        randomize_data_struct-IsRandomFrame r c s.data_struct round.now
          (record { frame_counter = w₁.frame_counter; fec_id = s.fec_id }) s.rand_gen h in
      let (returned, written, lines) =
        convert-IsOutput z p input es q random.hit_data random.marker_data k.fits
          s.struct_serializer k in
      (
        input,
        constructed.0,
        send_frame z p r c round.sent_size constructed.1,
        rw (on) (ap (λ e. send_result z p r c round (constructed.0, constructed.1, e)) returned),
        record {
          random =
              subst
                (λ n.
                  IsRandomFrame c round.now (record { frame_counter = n; fec_id = s.fec_id }) input)
                counter random;
          frame_counter = ap (λ n. (n + 1) % 2 ^ 32) counter;
          fec_id = refl;
          serializer = lines;
          n_frames_sent = refl;
          datagrams = ap (λ outs. s.datagrams ++ get_or outs 0 [] ∷ []) written;
        },
      )
