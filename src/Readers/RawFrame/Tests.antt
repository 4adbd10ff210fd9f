-- ===== src/Readers/RawFrame/Tests.antt =====
-- Two frames through a file, the second without bytes.
use srs_control.Base.{ℕ, ◌≡◌, List, [], ◌∷◌, some, arith, length, get_or}
use srs_control.Converters.Archive.{archive}
use srs_control.Readers.RawFrame.RoundTrip.{
  good, read_frames, write_frames, read_frames-write_frames,
}
use srs_control.Sinks.BinaryFile

abbrev frames : List (List ℕ)
frames = (1 ∷ 2 ∷ 3 ∷ []) ∷ [] ∷ []

read_frames-write_frames_example :
    (read_frames archive 2
        (9 ∷ [])
        (good (get_or (write_frames archive (BinaryFile.create 1) 0 frames).output_streams 0 []))
      ≡ some (frames, good []))
    × ((write_frames archive (BinaryFile.create 1) 0 frames).output_data
        ≡ length (get_or (write_frames archive (BinaryFile.create 1) 0 frames).output_streams 0 [])
          ∷ [])
read_frames-write_frames_example = read_frames-write_frames archive frames (9 ∷ []) (omega arith)
