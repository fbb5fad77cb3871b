-- ===== src/Forth/Words/OnArray.antt =====
-- The stack words on the array fvm_data_stack and its pointer.
use common_lib.Forth.Array
