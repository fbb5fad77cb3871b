-- ===== src/Rf.antt =====
-- The decoders of rf/: state machines that are called at each edge of a received signal with its time.
-- Durations are in microseconds.
pub mod Bits
pub mod Pulses
pub mod Nexus
pub mod Prologue
pub mod Bresser
