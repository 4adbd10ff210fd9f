-- ===== src/Connections.antt =====
-- backend/srs/connections: the socket that reads the frames, the commands that switch the front end,
-- and the socket that sends them.
pub mod DataSocket
pub mod Command
pub mod CommandSocket
pub mod SpecialSocket
pub mod FecCommandSocket
