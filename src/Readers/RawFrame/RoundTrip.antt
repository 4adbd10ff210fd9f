-- ===== src/Readers/RawFrame/RoundTrip.antt =====
-- What backend/srs/converters/RawToDelimRawConveter.cpp and backend/srs/sinks/BinaryFileWriter.hpp
-- write, backend/srs/readers/RawFrameReader.cpp reads.
use mathlib.Core.List.{append_assoc, append-nil}
use native.Mathlib.Nat.{zero-add}
use srs_control.Base.Expected.{Expected, value}
use srs_control.Base.{
  ℕ, zero, suc, ◌+◌, ◌^◌, ◌<◌, ◌≡◌, refl, ap, ap₂, ◌∙◌, sym, true, false, List, [], ◌∷◌, ◌++◌,
  Option, none, some, All, arith, leb, length, drop, length-append, take-append, drop-append,
  get_or, replicate,
}
use srs_control.Converters.RawToDelimRaw
use srs_control.Converters.Zpp.{Zpp}
use srs_control.Data.LargeBuffer.{resize_vector, length_grown}
use srs_control.Readers.RawFrame.{
  InputFile, read, overwrite, Error, read_sized, read_body, read_one_frame,
}
use srs_control.Sinks.BinaryFile
use srs_control.Sinks.BinaryFile.{BinaryFile}

-- A file that is open and has not ended.
abbrev pub good : (rest : List ℕ) → InputFile
good rest = record { is_open = true; rest = rest; eof = false; fail = false }

-- A file at its end, after a read that found nothing.
abbrev pub ended : InputFile
ended = record { is_open = true; rest = []; eof = true; fail = true }

read-good : (xs ys : List ℕ) (n : ℕ) → length xs ≡ n → read (good (xs ++ ys)) n ≡ (xs, good ys)
read-good xs ys n e = rw (enough, take-append xs ys n e, drop-append xs ys n e) refl
  where
    enough : leb n (length (xs ++ ys)) ≡ true
    enough = ground (arith, length-append xs ys)

drop-all : (n : ℕ) (xs : List ℕ) → length xs ≡ n → drop n xs ≡ []
drop-all zero [] e = refl
drop-all zero (x ∷ xs) e = absurd (omega arith)
drop-all (suc n) [] e = refl
drop-all (suc n) (x ∷ xs) e = drop-all n xs (omega arith)

overwrite-all :
    (buffer bytes : List ℕ) → length buffer ≡ length bytes → overwrite buffer bytes ≡ bytes
overwrite-all buffer bytes e = ap (◌++◌ bytes) (drop-all (length bytes) buffer e) ∙ append-nil bytes

module _ (z : Zpp) where
  more_frames :
      (frame : List ℕ) → Option (List (List ℕ) × InputFile) → Option (List (List ℕ) × InputFile)
  more_frames frame none = none
  more_frames frame (some (frames, f)) = some (frame ∷ frames, f)

  -- The loop of a program that reads so many frames.
  unfoldable pub read_frames :
      (count : ℕ) (binary_data : List ℕ) → InputFile → Option (List (List ℕ) × InputFile)
  unfolding more_frames
  read_frames zero binary_data f = some ([], f)
  read_frames (suc count) binary_data f = elim (read_one_frame z binary_data f) [
    | none ↦ none
    | some (_, frame, f) ↦ more_frames frame (read_frames count frame f)
  ]

  read_frames_step :
      (count : ℕ) (old frame : List ℕ) (f f' f'' : InputFile) (result : Expected Error ℕ)
      (frames : List (List ℕ))
      → read_one_frame z old f ≡ some (result, frame, f')
      → read_frames count frame f' ≡ some (frames, f'')
      → read_frames (suc count) old f ≡ some (frame ∷ frames, f'')
  unfolding read_frames more_frames
  read_frames_step count old frame f f' f'' result frames e e' =
      rw (e, read_frames) (ap (more_frames frame) e')

  read_body-good :
      (old size_bytes frame rest : List ℕ) (size : ℕ)
      → length size_bytes ≡ 4
      → z.get_uint 4 size_bytes ≡ some (size, [])
      → length frame ≡ size
      → read_body z old (size_bytes, good (frame ++ rest))
        ≡ some (value (length frame), frame, good rest)
  unfolding read_body read_sized
  read_body-good old size_bytes frame rest size four e same =
      let whole = overwrite-all (replicate 4 0) size_bytes (sym four) in
      let buffer =
        overwrite-all (resize_vector size old) frame (length_grown size old ∙ sym same) in
      ap (λ bytes. read_sized z old (good (frame ++ rest)) (z.get_uint 4 bytes)) whole
      ∙ ap (read_sized z old (good (frame ++ rest))) e
      ∙ ap
          (λ (r : List ℕ × InputFile).
            some (value (length r.0), overwrite (resize_vector size old) r.0, r.1))
          (read-good frame rest size same)
      ∙ ap (λ b. some (value (length frame), b, good rest)) buffer

  delim_bytes :
      (frame : List ℕ)
      → length frame < 2 ^ 32
      → RawToDelimRaw.convert z frame [] ≡ z.put_uint 4 (length frame) ++ frame
  unfolding RawToDelimRaw.convert
  delim_bytes frame fits = ap (λ n. z.put_uint 4 n ++ frame) (omega arith)

  read_one_frame-delim :
      (old frame rest : List ℕ)
      → length frame < 2 ^ 32
      → read_one_frame z old (good (RawToDelimRaw.convert z frame [] ++ rest))
        ≡ some (value (length frame), frame, good rest)
  unfolding read_one_frame
  read_one_frame-delim old frame rest fits =
      let size_bytes = z.put_uint 4 (length frame) in
      let known =
        ap (z.get_uint 4) (sym (append-nil size_bytes))
        ∙ z.get_uint-put_uint 4 (length frame) [] fits in
      ap (λ bytes. read_one_frame z old (good (bytes ++ rest))) (delim_bytes frame fits)
      ∙ ap (λ bytes. read_one_frame z old (good bytes)) (append_assoc size_bytes frame rest)
      ∙ ap (read_body z old)
          (read-good size_bytes (frame ++ rest) 4 (z.length-put_uint 4 (length frame)))
      ∙ read_body-good old size_bytes frame rest (length frame) (z.length-put_uint 4 (length frame))
          known refl

  -- The file that the sink makes of the frames.
  abbrev pub file_of : (frames : List (List ℕ)) → List ℕ
  file_of [] = []
  file_of (frame ∷ frames) = RawToDelimRaw.convert z frame [] ++ file_of frames

  read_frames-file_of :
      (old : List ℕ) (frames : List (List ℕ))
      → All (λ (f : List ℕ). length f < 2 ^ 32) frames
      → read_frames (length frames) old (good (file_of frames)) ≡ some (frames, good [])
  unfolding read_frames
  read_frames-file_of old [] fits = refl
  read_frames-file_of old (frame ∷ frames) fits =
      read_frames_step (length frames) old frame _ (good (file_of frames)) (good [])
        (value (length frame)) frames (read_one_frame-delim old frame (file_of frames) fits.0)
        (read_frames-file_of frame frames fits.1)

  -- The frames of one line, delimited and written one after another.
  abbrev pub write_frames : BinaryFile → (line : ℕ) → (frames : List (List ℕ)) → BinaryFile
  write_frames b line [] = b
  write_frames b line (frame ∷ frames) =
      write_frames (BinaryFile.run b (RawToDelimRaw.run z [] frame 0).1 line).0 line frames

  more_zero : (n : ℕ) → n ≡ n + 0
  more_zero n = omega arith

  summed : (n : ℕ) (line rest : List ℕ) → n + length line + length rest ≡ n + length (line ++ rest)
  summed n line rest = omega (arith, length-append line rest)

  write_frames-streams :
      (frames : List (List ℕ)) (written : ℕ) (bytes : List ℕ)
      → write_frames (record { output_data = written ∷ []; output_streams = bytes ∷ [] }) 0 frames
        ≡ record {
          output_data = (written + length (file_of frames)) ∷ [];
          output_streams = (bytes ++ file_of frames) ∷ [];
        }
  unfolding BinaryFile.run RawToDelimRaw.run
  write_frames-streams [] written bytes =
      ap₂ (λ (n : ℕ) (s : List ℕ). record { output_data = n ∷ []; output_streams = s ∷ [] })
        (more_zero written) (sym (append-nil bytes))
  write_frames-streams (frame ∷ frames) written bytes =
      let line = RawToDelimRaw.convert z frame [] in
      write_frames-streams frames (written + length line) (bytes ++ line)
      ∙ ap₂ (λ (n : ℕ) (s : List ℕ). record { output_data = n ∷ []; output_streams = s ∷ [] })
          (summed written line (file_of frames)) (append_assoc bytes line (file_of frames))

  -- Frames shorter than 2^32 bytes, delimited and written one after another by one line to a new
  -- file, are read back one by one, the same and in the order in which they were written, whatever
  -- the reader's buffer held, and then nothing of the file is left. The sink's count of bytes is
  -- the length of the file.
  pub read_frames-write_frames :
      (frames : List (List ℕ)) (old : List ℕ)
      → All (λ (f : List ℕ). length f < 2 ^ 32) frames
      → let b = write_frames (BinaryFile.create 1) 0 frames in
        (read_frames (length frames) old (good (get_or b.output_streams 0 []))
          ≡ some (frames, good []))
        × (b.output_data ≡ length (get_or b.output_streams 0 []) ∷ [])
  unfolding BinaryFile.create
  read_frames-write_frames frames old fits =
      let made = write_frames-streams frames 0 [] in
      (
        ap
              (λ (b : BinaryFile).
                read_frames (length frames) old (good (get_or b.output_streams 0 [])))
              made
            ∙ read_frames-file_of old frames fits,
        ap (λ (b : BinaryFile). b.output_data) made
            ∙ ap (λ (n : ℕ). n ∷ []) (zero-add (length (file_of frames)))
            ∙ ap (λ (b : BinaryFile). length (get_or b.output_streams 0 []) ∷ []) (sym made),
      )
