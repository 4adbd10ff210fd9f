-- ===== src/Utils.antt =====
-- backend/srs/utils: the bit helpers of CommonFunctions.hpp, and texts.
pub mod Gray
pub mod Bitset
pub mod ByteSwap
pub mod Text
pub mod EnumNames
pub mod ExitLogger
pub mod Filename
