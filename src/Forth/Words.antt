-- ===== src/Forth/Words.antt =====
-- The handlers of forth/forth_words.c, and the table that a call through a handler's address uses.
pub mod Arith
pub mod Compare
pub mod Shuffle
pub mod Control
pub mod Table
pub mod Effects
pub mod OnArray
pub mod Underflow
pub mod Values
pub mod Division
pub mod Faults
pub mod Reversed
pub mod Roll
