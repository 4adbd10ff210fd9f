-- ===== src/Converters/Zpp.antt =====
-- The archives of the library zpp_bits, which is not part of the repository: an interface that the
-- converters take as a parameter. A `zpp::bits::out` archive is the list of the bytes written to it:
-- they replace those of its vector from the beginning on, and only past its end is the vector fitted
-- to them, so that a longer one keeps its end. A `zpp::bits::in` archive is the list of the bytes
-- still to be read.
-- The fields whose names end in a law are what the program relies on: network byte order reads back
-- what it wrote and takes the width of the type, any bytes are those of the integer that they are
-- read as, and a bit set goes byte by byte, the lowest first
-- (the order that StructDeserializer.cpp calls a bug of zpp_bits, and undoes).
use srs_control.Base.Digits.{le_bytes, from_le_bytes, AreBytes}
use srs_control.Base.{ℕ, ◌^◌, ◌<◌, ◌≡◌, List, ◌++◌, Option, some, length, drop}

pub record Zpp : Type 0 where
  -- An unsigned integer of so many bytes, or a character of one.
  pub put_uint : (width x : ℕ) → List ℕ
  pub get_uint : (width : ℕ) → List ℕ → Option (ℕ × List ℕ)
  -- A bit set of so many bytes.
  pub put_bitset : (width x : ℕ) → List ℕ
  pub get_bitset : (width : ℕ) → List ℕ → Option (ℕ × List ℕ)
  -- The vector of an archive, which held `old`, after it wrote these bytes.
  pub write : (old new : List ℕ) → List ℕ
  pub write-eq : (old new : List ℕ) → write old new ≡ new ++ drop (length new) old
  pub length-put_uint : (w x : ℕ) → length (put_uint w x) ≡ w
  pub get_uint-put_uint :
      (w x : ℕ) (rest : List ℕ) → x < 256 ^ w → get_uint w (put_uint w x ++ rest) ≡ some (x, rest)
  pub get_uint-bytes :
      (w : ℕ) (bs rest : List ℕ)
      → length bs ≡ w
      → AreBytes bs
      → (x : ℕ) × (x < 256 ^ w) × (put_uint w x ≡ bs) × (get_uint w (bs ++ rest) ≡ some (x, rest))
  pub put_bitset-eq : (w x : ℕ) → put_bitset w x ≡ le_bytes w x
  pub get_bitset-eq :
      (w : ℕ) (bs rest : List ℕ)
      → length bs ≡ w
      → AreBytes bs
      → get_bitset w (bs ++ rest) ≡ some (from_le_bytes bs, rest)
