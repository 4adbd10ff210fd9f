-- ===== src/Readers.antt =====
-- backend/srs/readers: the files that the program wrote, read again.
pub mod RawFrame
pub mod ProtoMsg
