-- ===== src/Shell/Tests.antt =====
-- Instances of the theorems about the shell.
use common_lib.Prelude.{ℕ, ◌+◌, ◌≡◌, refl, arith, if◌then◌else◌, none, some, [], ◌∷◌, length, ltb}
use common_lib.Shell.{Limits, row, build_command_parameters}
use common_lib.Shell.Commands.{Message, ShellCommand, shell_execute}
use common_lib.Shell.Dispatch.{shell_execute-dispatches}
use common_lib.Shell.Argv.{Rows}
use common_lib.Shell.Laws.{build_command_parameters-spelled, build_command_parameters-overruns}

abbrev small : Limits
small = record { max_commands = 2; max_parameters = 3; max_length = 4 }

-- `abcd` is left in argv[0]
abbrev abcd : ℕ → ℕ
abcd i = if ltb i 4 then 97 + i else 0

build_command_parameters-spelled_example :
    (m' : ℕ → ℕ) × (build_command_parameters small (120 ∷ 121 ∷ 32 ∷ 122 ∷ []) abcd ≡ (some 2, m'))
    × Rows small m' 0 ((120 ∷ 121 ∷ 99 ∷ 100 ∷ []) ∷ (122 ∷ []) ∷ [] ∷ [])
build_command_parameters-spelled_example =
    build_command_parameters-spelled small ((120 ∷ 121 ∷ []) ∷ (122 ∷ []) ∷ [])
      ((97 ∷ 98 ∷ 99 ∷ 100 ∷ []) ∷ [] ∷ [] ∷ []) abcd
      (
        (omega arith, omega arith, (omega arith, tt)),
        omega arith,
        ((omega arith, omega arith, tt), omega arith, tt),
      )
      (omega arith) (omega arith)
      (
        (
          refl,
          omega arith,
          (refl, omega arith, (refl, omega arith, (refl, omega arith, (refl, tt)))),
        ),
        (
          (refl, (refl, (refl, (refl, (refl, tt))))),
          ((refl, (refl, (refl, (refl, (refl, tt))))), tt),
        ),
      )

build_command_parameters-overruns_example :
    (m' : ℕ → ℕ) × (build_command_parameters small (97 ∷ 98 ∷ 99 ∷ 100 ∷ 101 ∷ 102 ∷ []) abcd
      ≡ (some 1, m'))
    × (m' (row small 1) ≡ 102)
build_command_parameters-overruns_example =
    build_command_parameters-overruns small (97 ∷ 98 ∷ 99 ∷ 100 ∷ 101 ∷ []) [] 102 abcd
      (
        omega arith,
        omega arith,
        (omega arith, (omega arith, (omega arith, (omega arith, (omega arith, tt))))),
      )
      refl (omega arith)

-- a command that stores how many parameters it has
abbrev counting : ShellCommand ℕ
counting = record {
  name = 97 ∷ [];
  help = none;
  parameter_mask = 2;
  handler = λ params w. (7, length params);
}

abbrev other : ShellCommand ℕ
other = record { name = 98 ∷ []; help = none; parameter_mask = 1; handler = λ params w. (8, w) }

abbrev silent : Message → ℕ → ℕ
silent message w = w

shell_execute-dispatches_example :
    (m' : ℕ → ℕ) × (shell_execute small silent
        (some (97 ∷ 32 ∷ 120 ∷ 121 ∷ []))
        (record { commands = other ∷ counting ∷ []; argvv = λ i. 0; world = 0 })
      ≡ (7, record { commands = other ∷ counting ∷ []; argvv = m'; world = 1 }))
shell_execute-dispatches_example =
    shell_execute-dispatches small silent (other ∷ []) [] counting ((120 ∷ 121 ∷ []) ∷ []) (λ i. 0)
      0
      (
        (omega arith, omega arith, tt),
        omega arith,
        ((omega arith, omega arith, (omega arith, tt)), omega arith, tt),
      )
      (omega arith)
      (
        (refl, (refl, (refl, (refl, (refl, tt))))),
        (
          (refl, (refl, (refl, (refl, (refl, tt))))),
          ((refl, (refl, (refl, (refl, (refl, tt))))), tt),
        ),
      )
      refl (refl, tt) (omega arith)
