-- ===== src/Shell.antt =====
-- shell2/shell.c: a line split into parameters, and the command that it names. The sizes in board.h
-- are parameters, and a char is unsigned.
pub mod Argv
pub mod Laws
pub mod Commands
pub mod Dispatch
mod Tests
use common_lib.Prelude.{
  ℕ, zero, suc, ◌+◌, ◌-◌, ◌*◌, ◌/◌, ◌%◌, ◌^◌, ◌==◌, leb, ltb, if◌then◌else◌, Bool, true, false, not,
  Option, none, some, List, [], ◌∷◌, ◌++◌, length,
}

-- MODE_SPACE, MODE_PARAMETER and MODE_STRING
pub data Mode : Type 0 where
  space parameter quoted : Mode

-- MAX_SHELL_COMMANDS, MAX_SHELL_COMMAND_PARAMETERS and MAX_SHELL_COMMAND_PARAMETER_LENGTH
pub record Limits : Type 0 where
  pub max_commands : ℕ
  pub max_parameters : ℕ
  pub max_length : ℕ

-- memcpy of the characters to an address
abbrev pub copied : ℕ → List ℕ → (ℕ → ℕ) → ℕ → ℕ
copied a [] m i = m i
copied a (c ∷ word) m i = if i == a then c else copied (a + 1) word m i

module _ (limits : Limits) where
  -- the address of argv[k] in argvv
  abbrev pub row : ℕ → ℕ
  row k = k * (limits.max_length + 1)

  -- The loop of buildCommandParameters and what is behind it. `len` is `length`, and `word` the characters from
  -- argp to command.
  unfoldable pub build_from : List ℕ → Mode → ℕ → ℕ → List ℕ → (ℕ → ℕ) → Option ℕ × (ℕ → ℕ)
  build_from [] space len count word m = (some count, m)
  build_from [] parameter len count word m =
      if ltb limits.max_length len then (none, m) else (some (count + 1), copied (row count) word m)
  build_from [] quoted len count word m = (none, m)
  build_from (c ∷ command) space len count word m =
      let string = build_from command quoted len count [] m in
      let begun = build_from command parameter len count (c ∷ []) m in
      let skipped = build_from command space len count word m in
      if c == 34
      then if leb limits.max_parameters count then (none, m) else string
      else if ltb 32 c
      then if leb limits.max_parameters count then (none, m) else begun
      else skipped
  build_from (c ∷ command) parameter len count word m =
      let next = build_from command space len (count + 1) word (copied (row count) word m) in
      let more = build_from command parameter len count (word ++ (c ∷ [])) m in
      if leb c 32 then if ltb limits.max_length len then (none, m) else next else more
  build_from (c ∷ command) quoted len count word m =
      let next = build_from command space len (count + 1) word (copied (row count) word m) in
      let more = build_from command quoted len count (word ++ (c ∷ [])) m in
      if c == 34 then if ltb limits.max_length len then (none, m) else next else more

  -- `buildCommandParameters`; none is -1
  unfoldable pub build_command_parameters : List ℕ → (ℕ → ℕ) → Option ℕ × (ℕ → ℕ)
  unfolding build_from
  build_command_parameters command m = build_from command space 0 0 [] m
