-- ===== src/Sinks/FrameCountChecker/Analyze.antt =====
-- `analyze_frame_counter` of backend/srs/sinks/FrameCountChecker.cpp on the frames of the wire
-- format.
use srs_control.Base.Expected.{value, unexpected}
use srs_control.Base.{
  ℕ, ◌<◌, ◌≤◌, ◌≡◌, refl, false, true, List, ◌++◌, some, arith, length, leb, length-append,
}
use srs_control.Converters.Read.{get_header-put_header}
use srs_control.Converters.StructDeserializer.{get_header}
use srs_control.Converters.StructSerializer.{put_header}
use srs_control.Converters.Wire.{length-put_header}
use srs_control.Converters.Zpp.{Zpp}
use srs_control.Data.Structs.{ReceiveDataHeader, IsHeader}
use srs_control.Sinks.FrameCountChecker.{
  Counters, Error, size_too_small, extract_frame_counter, register_frame_counter,
  analyze_frame_counter,
}

extract-accepted :
    (z : Zpp) (bytes rest : List ℕ) (h : ReceiveDataHeader)
    → leb (length bytes) 16 ≡ false
    → get_header z bytes ≡ some (h, rest)
    → extract_frame_counter z bytes ≡ value h.frame_counter
unfolding extract_frame_counter
extract-accepted z bytes rest h e g = rw (e, g)

extract-refused :
    (z : Zpp) (bytes : List ℕ)
    → leb (length bytes) 16 ≡ true
    → extract_frame_counter z bytes ≡ unexpected size_too_small
unfolding extract_frame_counter
extract-refused z bytes e = rw e refl

analyze-accepted :
    (z : Zpp) (c : Counters) (bytes : List ℕ) (f : ℕ)
    → extract_frame_counter z bytes ≡ value f
    → analyze_frame_counter z c bytes ≡ (register_frame_counter c f, value f)
unfolding analyze_frame_counter
analyze-accepted z c bytes f e = rw (e, analyze_frame_counter) refl

analyze-refused :
    (z : Zpp) (c : Counters) (bytes : List ℕ) (error : Error)
    → extract_frame_counter z bytes ≡ unexpected error
    → analyze_frame_counter z c bytes ≡ (c, unexpected error)
unfolding analyze_frame_counter
analyze-refused z c bytes error e = rw (e, analyze_frame_counter) refl

-- Of bytes that begin with a header and go on, the checker registers and returns the frame counter
-- of that header, whatever follows it; of sixteen bytes or fewer it registers nothing and reports
-- that they are too few.
pub analyze_frame_counter_lem :
    (z : Zpp) (c : Counters) (padding : ℕ) (h : ReceiveDataHeader) (rest short : List ℕ)
    → IsHeader h
    → 0 < length rest
    → length short ≤ 16
    → (analyze_frame_counter z c (put_header z padding h ++ rest)
        ≡ (register_frame_counter c h.frame_counter, value h.frame_counter))
      × (analyze_frame_counter z c short ≡ (c, unexpected size_too_small))
analyze_frame_counter_lem z c padding h rest short v long_rest few =
    let bytes = put_header z padding h ++ rest in
    let long : leb (length bytes) 16 ≡ false =
      ground (arith, length-append (put_header z padding h) rest, length-put_header z padding h) in
    (
      analyze-accepted z c bytes h.frame_counter
          (extract-accepted z bytes rest h long (get_header-put_header z padding h rest v)),
      analyze-refused z c short size_too_small (extract-refused z short (ground arith)),
    )
