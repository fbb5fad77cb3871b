-- ===== src/Forth/Compile.antt =====
-- The compile-time part of the control words: the `*_word_handler2` functions of
-- forth/forth_words.c, which write the code of the word being defined and keep the places of the
-- branches to be resolved on `fvm_conditions_stack`.
pub mod Defs
pub mod Words
pub mod Rounds
pub mod Opens
pub mod Targets
mod Tests
