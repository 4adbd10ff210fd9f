-- ===== src/Readers/RawFrame.antt =====
-- backend/srs/readers/RawFrameReader.cpp and .hpp: one frame after another from a file of frames
-- with their sizes. A file is the bytes still to be read and the two flags of a `std::ifstream`.
pub mod RoundTrip
mod Tests
use srs_control.Base.Expected.{Expected, value, unexpected}
use srs_control.Base.{
  ℕ, zero, suc, ◌-◌, Bool, true, false, ◌||◌, List, [], ◌∷◌, ◌++◌, Option, none, some, leb,
  if◌then◌else◌, length, take, drop, replicate,
}
use srs_control.Converters.Zpp.{Zpp}
use srs_control.Data.LargeBuffer.{resize_vector}

pub record InputFile : Type 0 where
  pub is_open : Bool
  pub rest : List ℕ
  pub eof : Bool
  pub fail : Bool

-- `std::ifstream::read`: the characters read, whose number is `gcount`. A stream that is not good
-- reads nothing and fails, and one that ends before the last character sets both flags.
abbrev pub read : InputFile → (count : ℕ) → List ℕ × InputFile
read f count =
    if f.eof || f.fail
    then ([], record f { fail = true })
    else if leb count (length f.rest)
    then (take count f.rest, record f { rest = drop count f.rest })
    else (f.rest, record f { rest = []; eof = true; fail = true })

-- The bytes read, over what the buffer held.
abbrev pub overwrite : (buffer bytes : List ℕ) → List ℕ
overwrite buffer bytes = bytes ++ drop (length bytes) buffer

pub data Error : Type 0 where
  not_open : Error

-- The member that takes a buffer and a file; none where `or_throw` throws. The result is the number
-- of bytes read.
module _ (z : Zpp) where
  unfoldable pub read_sized :
      (binary_data : List ℕ)
      → InputFile
      → Option (ℕ × List ℕ)
      → Option (Expected Error ℕ × List ℕ × InputFile)
  read_sized binary_data f none = none
  read_sized binary_data f (some (size, _)) =
      let (bytes, f) = read f size in
      some (value (length bytes), overwrite (resize_vector size binary_data) bytes, f)

  unfoldable pub read_body :
      (binary_data : List ℕ) → List ℕ × InputFile → Option (Expected Error ℕ × List ℕ × InputFile)
  read_body binary_data (size_bytes, f) =
      read_sized binary_data f (z.get_uint 4 (overwrite (replicate 4 0) size_bytes))

  unfoldable pub read_one_frame :
      (binary_data : List ℕ) → InputFile → Option (Expected Error ℕ × List ℕ × InputFile)
  read_one_frame binary_data f =
      if f.is_open
      then if f.eof then some (value 0, binary_data, f) else read_body binary_data (read f 4)
      else some (unexpected not_open, binary_data, f)

-- `reset`.
unfoldable pub reset : (content : List ℕ) → InputFile → InputFile
reset content f = record f { rest = content; eof = false; fail = false }
