-- ===== src/Forth.antt =====
-- The Forth machine of forth/forth_core.c and forth/forth_words.c (built without FVM_FP_ENABLE).
pub mod Machine
pub mod Prog
pub mod Array
pub mod Spec
pub mod Refine
pub mod Words
pub mod Compile
mod Tests
