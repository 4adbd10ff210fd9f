-- ===== src/Data.antt =====
-- backend/srs/data: the structures of a frame, and the buffers that carry the frames.
pub mod Structs
pub mod Compact
pub mod LargeBuffer
pub mod ConcurrentQueue
pub mod BoundedQueue
pub mod BufferQueue
