-- ===== src/Emulators.antt =====
-- backend/srs/emulators: the emulation of a front end.
pub mod Fec
pub mod Randomizer
pub mod SendData
