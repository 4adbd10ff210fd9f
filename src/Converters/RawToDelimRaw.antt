-- ===== src/Converters/RawToDelimRaw.antt =====
-- backend/srs/converters/RawToDelimRawConveter.cpp and .hpp: a frame with its size before it, which
-- is an unsigned 32-bit number in network byte order.
use srs_control.Base.{ℕ, ◌^◌, ◌%◌, List, [], ◌++◌, length, set}
use srs_control.Converters.Zpp.{Zpp}

module _ (z : Zpp) where
  -- An archive that appends to its output.
  unfoldable pub convert : (input output : List ℕ) → List ℕ
  convert input output = let size = length input % 2 ^ 32 in output ++ (z.put_uint 4 size ++ input)

  -- `run` on one line: the outputs of the lines, and the output of this one.
  unfoldable pub run :
      (output_data : List (List ℕ)) (input : List ℕ) (line : ℕ) → List (List ℕ) × List ℕ
  run output_data input line =
      let output = convert input [] in (set output_data line output, output)
