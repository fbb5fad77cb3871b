-- ===== src/Shell/Commands.antt =====
-- shell2/shell.c: registered commands, shell_execute without SHELL_HISTORY_SIZE, and the ring of
-- received characters. `W` is what the handlers and `pfunc` change.
use common_lib.Prelude.{
  ℕ, zero, suc, ◌+◌, ◌-◌, ◌/◌, ◌%◌, ◌^◌, ◌==◌, ◌&&◌, leb, if◌then◌else◌, Bool, true, false, Option,
  none, some, List, [], ◌∷◌, ◌++◌, length,
}
use common_lib.Shell.{Limits, row, build_command_parameters}

-- what shell_execute prints; `help_text` is one line
pub data Message : Type 0 where
  usage incorrect_number unknown_command : Message
  help_text : List ℕ → Message

-- a handler takes the strings of argv
pub record ShellCommand (W : Type 0) : Type 0 where
  pub name : List ℕ
  pub help : Option (List ℕ)
  pub parameter_mask : ℕ
  pub handler : List (List ℕ) → W → ℕ × W

pub record Shell (W : Type 0) : Type 0 where
  pub commands : List (ShellCommand W)
  pub argvv : ℕ → ℕ
  pub world : W

-- strcmp, as a test for equality
abbrev pub same_text : List ℕ → List ℕ → Bool
same_text [] [] = true
same_text [] (d ∷ ds) = false
same_text (c ∷ cs) [] = false
same_text (c ∷ cs) (d ∷ ds) = c == d && same_text cs ds

-- the string at an address that has so many characters behind it in the array
abbrev pub string_at : ℕ → (ℕ → ℕ) → ℕ → List ℕ
string_at zero m a = []
string_at (suc n) m a = if m a == 0 then [] else m a ∷ string_at n m (a + 1)

-- "help"
abbrev pub help_name : List ℕ
help_name = 104 ∷ 101 ∷ 108 ∷ 112 ∷ []

-- -1 as an int
abbrev pub minus_one : ℕ
minus_one = 0xffffffff

module _ {W : Type 0} (limits : Limits) (print : Message → W → W) where
  -- argv[k], which ends at the first 0, be it behind its own row; argvv ends after the last row
  abbrev pub argument : ℕ → (ℕ → ℕ) → List ℕ
  argument k m = string_at (row limits (limits.max_parameters - k)) m (row limits k)

  -- argv[k] up to argv[k + n - 1]
  abbrev pub arguments : ℕ → ℕ → (ℕ → ℕ) → List (List ℕ)
  arguments k zero m = []
  arguments k (suc n) m = argument k m ∷ arguments (k + 1) n m

  -- `shell_register_command`
  unfoldable pub shell_register_command : ShellCommand W → Shell W → ℕ × Shell W
  shell_register_command command s =
      if leb limits.max_commands (length s.commands)
      then (1, s)
      else (0, record s { commands = s.commands ++ (command ∷ []) })

  -- `get_help_text`
  abbrev pub get_help_text : ShellCommand W → List ℕ
  get_help_text command = elim command.help [ none ↦ command.name | some text ↦ text ]

  -- the loop that prints the help
  abbrev pub print_help : List (ShellCommand W) → W → W
  print_help [] w = w
  print_help (command ∷ commands) w =
      print_help commands (print (help_text (get_help_text command)) w)

  -- the loop over the commands, with the number of parameters behind the name
  unfoldable pub dispatch : List (ShellCommand W) → ℕ → (ℕ → ℕ) → W → ℕ × W
  dispatch [] n m w = (1, print unknown_command w)
  dispatch (command ∷ commands) n m w =
      let rest = dispatch commands n m w in
      if same_text command.name (argument 0 m)
      then if command.parameter_mask / 2 ^ n % 2 == 0
        then (minus_one, print incorrect_number w)
        else command.handler (arguments 1 n m) w
      else rest

  -- what shell_execute does with the parameters, of which there are some
  unfoldable pub execute_parameters : ℕ → Shell W → ℕ × Shell W
  unfolding dispatch
  execute_parameters count s =
      if same_text (argument 0 s.argvv) help_name
      then (0, record s { world = print_help s.commands (print usage s.world) })
      else let (code, w) = dispatch s.commands (count - 1) s.argvv s.world in
        (code, record s { world = w })

  -- what shell_execute does after buildCommandParameters
  abbrev pub after_split : Option ℕ × (ℕ → ℕ) → Shell W → ℕ × Shell W
  unfolding execute_parameters
  after_split (none, m) s = (minus_one, record s { argvv = m })
  after_split (some zero, m) s = (0, record s { argvv = m })
  after_split (some (suc count), m) s = execute_parameters (suc count) (record s { argvv = m })

  -- `shell_execute`, where none stands for NULL
  unfoldable pub shell_execute : Option (List ℕ) → Shell W → ℕ × Shell W
  unfolding build_command_parameters after_split
  shell_execute none s = (1, s)
  shell_execute (some command) s = after_split (build_command_parameters limits command s.argvv) s
