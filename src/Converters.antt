-- ===== src/Converters.antt =====
-- backend/srs/converters: frames to bytes and back.
pub mod Zpp
pub mod StructSerializer
pub mod StructDeserializer
pub mod Elements
pub mod Wire
pub mod Written
pub mod Buffers
pub mod Lines
pub mod Read
pub mod Total
pub mod RoundTrip
pub mod Header
pub mod Body
pub mod Back
pub mod Translate
pub mod Reread
pub mod Archive
pub mod DataConvertOptions
pub mod RawToDelimRaw
pub mod Proto
mod Tests
pub mod Protobuf
pub mod ProtoSerializer
