-- ===== src/Sinks/BinaryFile.antt =====
-- backend/srs/sinks/BinaryFileWriter.hpp: what `run` writes to the file of a line. A stream is the
-- bytes that it was given.
pub mod Files
mod Tests
use srs_control.Base.{ℕ, ◌+◌, List, [], ◌++◌, length, get_or, set, replicate}

pub record BinaryFile : Type 0 where
  pub output_data : List ℕ
  pub output_streams : List (List ℕ)

unfoldable pub create : (n_lines : ℕ) → BinaryFile
create n_lines = record { output_data = replicate n_lines 0; output_streams = replicate n_lines [] }

unfoldable pub run : BinaryFile → (input_data : List ℕ) (line : ℕ) → BinaryFile × ℕ
run b input_data line =
    let written = get_or b.output_data line 0 + length input_data in
    (
      record {
        output_data = set b.output_data line written;
        output_streams = set b.output_streams line (get_or b.output_streams line [] ++ input_data);
      },
      written,
    )
