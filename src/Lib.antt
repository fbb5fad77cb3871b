-- ===== src/Lib.antt =====
-- common_lib, a library of C drivers and services for microcontrollers.
--
-- Modelled here: the Forth machine (forth/forth_core.c, forth/forth_words.c), without
-- FVM_FP_ENABLE; the queues queue.c and fixed_queue.c; crypto/base64.c, crc8.c, itoa.c and ultoa.c;
-- the calendar rtc/rtc_func.c, three decoders of rf, the heap heap.c, the file system
-- fs/flash_fs.c and the command shell shell2/shell.c.
--
-- Prelude: the shared names and lemmas. Prelude/Word has `int` and `unsigned int` of a 32-bit target
-- as bit patterns below 2 ^ 32 with two's complement wrap-around (C leaves the overflow of a signed
-- sum undefined; the targets wrap), and Prelude/Int the integers that they stand for.
--
-- Forth: a word's handler is a program (Forth/Prog) over the data stack and the rest of the state
-- (Forth/Machine). The step `pop` is `*fvm_data_stack_pointer++`, `push v` is
-- `*--fvm_data_stack_pointer = v`, `peek i` and `poke i v` are reads and writes of
-- `fvm_data_stack_pointer[i]`. A handler `x_word_handler` is the definition `x_word` of Forth/Words,
-- and the compile-time handler `x_word_handler2` is `x_word2` of Forth/Compile/Words.
-- Forth/Array runs a program on the C array and its pointer, Forth/Spec on a list of items, the top
-- first, and Forth/Refine relates the two. FVM_TRUE is `ok`, FVM_FALSE is `failed`; `fault` stands
-- for an access outside of the stack's items or of another array, a division by 0 or one that
-- overflows, and a shift by 32 or more; nothing is said of what the C code does after one. The words
-- check for underflow but not for overflow, so theorems about words that push suppose room.
-- Pointers into the dictionary are cell numbers, with 0 for NULL. The comparison
-- `fvm_data_stack_pointer + n > end` is taken on exact addresses. The lengths of the arrays come
-- from board.h and are parameters. Compiled code runs in `run_code` (Forth/Words/Table) on a number
-- of rounds, since Forth code need not end; one round is `round`. Handlers that are not modelled are
-- the parameter `foreign_word`. An entry of fvm_conditions_stack is the 64-bit pattern that PUSH_CONDITION
-- makes (Forth/Compile/Defs); theorems about control words suppose a dictionary below the address 2 ^ 31.
--
-- MessageQueue: queue.c, where a slot's size stands in an array and the bytes belong to the callers.
-- MessageQueue/Laws reads the queue as the list of the sizes of the pending messages.
--
-- FixedQueue: fixed_queue.c, with a slot of item_length bytes as one item. FixedQueue/Contents and
-- FixedQueue/Laws read it as the list of its items, FixedQueue/Search is about
-- fixed_queue_get_index. The loop of fixed_queue_move_to_top takes as fuel one more than the number
-- of slots, as it goes round at most once.
--
-- Base64: crypto/base64.c, with `isalnum` of the C library as a parameter. Base64/Decode is about what
-- base64encode writes, Base64/Total about any input.
--
-- Crc8: crc8.c.
--
-- NumberText: itoa.c and ultoa.c. Their array tmp[33] bounds the loop: the room left in it is what the
-- recursion is on, and NumberText/Digits shows that 32 digits are enough for a radix of 2 or more.
--
-- Calendar: rtc/rtc_func.c, with `unsigned long` of 32 bits. Calendar/Reference is the calendar day by
-- day, against which the code is proved; its rule is that every fourth year is a leap year, and
-- Calendar/Gregorian, the calendar in use, is the same from 1970 to 2099. The month search goes down from 13 and needs no fuel.
--
-- Rf: the decoders rf/NexusDecoder.c, rf/PrologueDecoder.c and rf/BresserDecoder.c, each a step on its
-- static variables at an edge of the signal. `queue_push`, and the queue, are parameters: the Queue
-- with queue_push that the decoders use is not that of queue.h. Rf/Pulses has signals as rows of
-- pulses, and the files named Signal are about whole transmissions.
--
-- Heap: heap.c, without HEAP_CHECK and HEAP_TEST; Heap_Free and what it calls are in Heap/Free. The
-- memory is what its block headers hold (Heap/Memory), with pointers and unsigned int of 32 bits, so
-- that a header takes 12 bytes. Heap/Chains says which list of blocks the `next` and `prev` of the
-- headers stand for, Heap/Invariant what a heap is, and Heap/FirstFit and Heap/Around have first fit
-- and freeing on lists. The loops take as fuel one more than the number of the free blocks, with the
-- block that is freed, which is as many rounds as they can make.
--
-- FlashFs: fs/flash_fs.c. FlashFs has the tables and the lists of clusters, FlashFs/Files the writing
-- and creating of files, FlashFs/Access what else is done with files, and FlashFs/Volume the check of
-- the table, mounting and formatting. The sizes of the flash in board.h (Board), the functions of the
-- board that read, write and erase it (Flash; FlashFs/Device says what is relied on), the layout of the
-- file table in memory, and whether malloc has memory are parameters. A name is its characters before
-- the 0. Theorems suppose fewer clusters than FAT_END_CLUSTER (IsBoard), so that a cluster fits in an
-- unsigned char, and nothing is said of a table that leads out of its array. A loop over the clusters
-- of a file takes fuel: one more than their number is enough, and so is one more than the bytes of
-- the file.
--
-- Shell: shell2/shell.c, without SHELL_HISTORY_SIZE. argvv is a memory that starts at address 0, row
-- after row, so that a copy that is too long runs into the next row; a char is unsigned. Shell/Commands
-- has the registered commands and shell_execute, with `pfunc` and what the handlers change as
-- parameters; a handler is given the strings that argv points to. The history, the ring of received
-- characters and shell_handler are not modelled.
--
-- Ring: the part of an array between two indices that go round, which both queues use.
--
-- Not modelled: the words that use addresses as integers (`@`, `!`, strings, `execute`), the
-- dictionary of names, the floating-point words, and the drivers, whose work is register access
-- through macros of board.h.
pub mod Base64
pub mod Calendar
pub mod Crc8
pub mod FixedQueue
pub mod FlashFs
pub mod Forth
pub mod Heap
pub mod MessageQueue
pub mod NumberText
pub mod Prelude
pub mod Rf
pub mod Ring
pub mod Shell
