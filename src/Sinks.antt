-- ===== src/Sinks.antt =====
-- backend/srs/sinks: where the frames go.
pub mod FrameCountChecker
pub mod DataWriterOptions
pub mod BinaryFile
pub mod Manager
pub mod Json
