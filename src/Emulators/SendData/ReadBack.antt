-- ===== src/Emulators/SendData/ReadBack.antt =====
-- backend/srs/emulators/FECEmulator.cpp against backend/srs/converters/StructDeserializer.cpp and
-- backend/srs/sinks/FrameCountChecker.cpp, which receive what the emulator sends.
use srs_control.Base.Expected.{value, unexpected}
use srs_control.Base.{
  ℕ, ◌+◌, ◌≤◌, ◌%◌, ◌^◌, ◌<◌, ◌≡◌, refl, ap, ◌∙◌, subst, sym, List, [], ◌∷◌, ◌++◌, some, length,
  map, arith, ◌⊎◌, inl, inr, dec_lt, length-append,
}
use srs_control.Converters.Read.{translate_elements}
use srs_control.Converters.RoundTrip.{convert-elements}
use srs_control.Converters.StructDeserializer
use srs_control.Converters.StructDeserializer.{
  size_too_small, add_element, translate_raw_data, array_to_hit, array_to_marker,
}
use srs_control.Converters.StructSerializer.{put_header}
use srs_control.Converters.Translate.{hits_of, markers_of, translate_raw_data-eq}
use srs_control.Converters.Wire.{elements, body_bytes, length-body_bytes, length-put_header}
use srs_control.Converters.Zpp.{Zpp}
use srs_control.Data.Structs.{StructData, IsHeader, FitsHit, FitsMarker, All, empty_struct}
use srs_control.Emulators.Randomizer.Bounds.{IsConfig, set_header-IsHeader}
use srs_control.Emulators.Randomizer.{RandomSource, Config}
use srs_control.Emulators.SendData.Datagrams.{IsOutput, left_behind, sent-lt}
use srs_control.Emulators.SendData.Frames.{sending, AreFrames, IsSent, start_send_data_lem}
use srs_control.Emulators.SendData.Rounds.{counter_after, counter_after-lt}
use srs_control.Emulators.SendData.{World, Round, Sender, start_send_data}
use srs_control.Sinks.FrameCountChecker
use srs_control.Sinks.FrameCountChecker.Analyze.{analyze_frame_counter_lem}
use srs_control.Sinks.FrameCountChecker.{Counters, analyze_frame_counter, register_frame_counter}

module _ (z : Zpp) (p : ℕ) where
  -- A frame with the hits and the markers that some elements hold added at their ends.
  abbrev pub extended : StructData → (stale : List ℕ) → StructData
  extended f stale = record f {
    marker_data = f.marker_data ++ map array_to_marker (markers_of stale);
    hit_data = f.hit_data ++ map array_to_hit (hits_of stale);
  }

  -- What the two receivers make of a frame behind which some elements stand: without any element it
  -- is too small for both; otherwise it is read with these hits and markers added, and the counter is
  -- that of the frame.
  abbrev pub IsReceived : Counters → (stale : List ℕ) → StructData → Type 0
  IsReceived c stale f =
      let es = elements p f ++ stale in
      let bytes = put_header z p f.header ++ body_bytes es in
      ((length es ≡ 0)
        × (StructDeserializer.convert z bytes empty_struct ≡ some (unexpected size_too_small))
        × (analyze_frame_counter z c bytes ≡ (c, unexpected FrameCountChecker.size_too_small)))
      ⊎ ((0 < length es)
          × (StructDeserializer.convert z bytes empty_struct ≡ some (value (extended f stale, es)))
          × (analyze_frame_counter z c bytes
              ≡ (register_frame_counter c f.header.frame_counter, value f.header.frame_counter)))

  -- The same of each frame, with what its datagram holds of earlier ones.
  abbrev pub AreReceived : Counters → (es : List ℕ) → List StructData → Type 0
  AreReceived c es [] = Unit
  AreReceived c es (f ∷ frames) =
      IsReceived c (left_behind z p f es) f
      × AreReceived c (elements p f ++ left_behind z p f es) frames

  translate-append :
      (xs ys : List ℕ) (s : StructData)
      → translate_raw_data s (xs ++ ys) ≡ translate_raw_data (translate_raw_data s xs) ys
  unfolding translate_raw_data
  translate-append [] ys s = refl
  translate-append (x ∷ xs) ys s = translate-append xs ys (add_element s x)

  convert-short :
      (bytes : List ℕ)
      → length bytes ≤ 16
      → StructDeserializer.convert z bytes empty_struct ≡ some (unexpected size_too_small)
  unfolding StructDeserializer.convert
  convert-short bytes h = ground arith

  module _ (q : p < 2 ^ 16) (c : Counters) (f : StructData) (stale : List ℕ) (v : IsHeader f.header)
      (hits : All FitsHit f.hit_data) (markers : All FitsMarker f.marker_data)
      (fits : All (λ e. e < 2 ^ 48) (elements p f ++ stale)) where
    translated :
        translate_raw_data
          (record { header = f.header; marker_data = []; hit_data = [] })
          (elements p f ++ stale)
        ≡ extended f stale
    translated =
        let start : StructData = record { header = f.header; marker_data = []; hit_data = [] } in
        translate-append (elements p f) stale start
        ∙ ap (λ s. translate_raw_data s stale) (translate_elements p q f f.header hits markers)
        ∙ translate_raw_data-eq stale f

    received : IsReceived c stale f
    received =
        let es = elements p f ++ stale in
        let bytes = put_header z p f.header ++ body_bytes es in
        let len = length-append (put_header z p f.header) (body_bytes es) in
        elim (dec_lt 0 (length es)) [
          | yes some_elements ↦ inr (
            some_elements,
            convert-elements z p f.header es v fits some_elements
                ∙ ap (λ s. some (value (s, es))) translated,
            (analyze_frame_counter_lem z c p f.header (body_bytes es) [] v
                (omega (arith, length-body_bytes es)) (omega arith)).0,
          )
          | no none_left ↦
              let short : length bytes ≤ 16 =
                omega (arith, len, length-put_header z p f.header, length-body_bytes es) in
              inl (
                omega arith,
                convert-short bytes short,
                (analyze_frame_counter_lem z c p f.header (0 ∷ []) bytes v (omega arith) short).1,
              )
        ]

  frames-AreReceived :
      (q : p < 2 ^ 16) (k : Config) (fec_id n : ℕ) (c : Counters) (rounds : List Round)
      (frames : List StructData) (es : List ℕ)
      → fec_id < 2 ^ 8
      → n < 2 ^ 32
      → All (λ e. e < 2 ^ 48) es
      → AreFrames k fec_id n rounds frames
      → AreReceived c es frames
  frames-AreReceived q k fec_id n c [] [] es g l fits a = tt
  frames-AreReceived q k fec_id n c [] (_ ∷ _) es g l fits a = absurd a
  frames-AreReceived q k fec_id n c (_ ∷ _) [] es g l fits a = tt
  frames-AreReceived q k fec_id n c (round ∷ rounds) (f ∷ frames) es g l fits a =
      let requested = counter_after round.others n in
      let v : IsHeader f.header =
        subst IsHeader (sym a.0.header)
          (set_header-IsHeader round.now requested fec_id (counter_after-lt round.others n l) g) in
      let sent = sent-lt z p f es q a.0.hit_data a.0.marker_data fits in
      (
        received q c f (left_behind z p f es) v a.0.hit_data a.0.marker_data sent,
        frames-AreReceived q k fec_id ((requested + 1) % 2 ^ 32) c rounds frames
            (elements p f ++ left_behind z p f es) g (omega arith) sent a.1,
      )

-- Whatever the random numbers, the clock, the requests and the switching of other emulators and the
-- timers do, each round of the sending loop before it is switched off, up to a cancelled one, adds
-- one datagram: a frame with the next free frame counter and numbers of hits and markers within the
-- configured limits, and behind it the elements that longer datagrams before it left in the output.
-- No frame is refused by the serializer. Of a datagram with an element the deserializer reads that
-- frame with the hits and markers of these elements added, and the frame count checker registers the
-- frame's counter; one without is too small for both.
pub start_send_data-received :
    (z : Zpp) (p : ℕ) (r : RandomSource) (k : Config) (rounds : List Round) (w : World)
    (s : Sender z p r k) (c : Counters) (es : List ℕ)
    → p < 2 ^ 16
    → IsConfig k
    → IsOutput es s.struct_serializer
    → s.fec_id < 2 ^ 8
    → w.frame_counter < 2 ^ 32
    → s.n_frames_sent < 2 ^ 64
    → (sent : IsSent z p r k es rounds w s (start_send_data z p r k rounds w s)) × AreReceived z p c
        es sent.frames
start_send_data-received z p r k rounds w s c es q h output g l n =
    let sent = start_send_data_lem z p r k rounds w s es q h output n in
    (
      sent,
      frames-AreReceived z p q k s.fec_id w.frame_counter c (sending rounds) sent.frames es g l
          output.fits sent.random,
    )
