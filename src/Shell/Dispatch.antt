-- ===== src/Shell/Dispatch.antt =====
-- shell_execute runs the command that a line names.
use mathlib.Core.Path.{subst}
use common_lib.Prelude.{
  ℕ, zero, suc, ◌+◌, ◌-◌, ◌/◌, ◌%◌, ◌^◌, ◌≤◌, ◌<◌, ◌≡◌, ◌≢◌, ◌==◌, refl, ap, ◌∙◌, arith, true,
  false, Option, some, List, [], ◌∷◌, ◌++◌, length, drop, append-nil,
}
use common_lib.Shell.{Limits, row, build_command_parameters}
use common_lib.Shell.Argv.{Holds, Rows, AllFit, over, spelled}
use common_lib.Shell.Laws.{build_command_parameters-spelled}
use common_lib.Shell.Commands.{
  Message, ShellCommand, same_text, string_at, argument, help_name, arguments, dispatch,
  execute_parameters, after_split, shell_execute,
}

-- A string with its 0 in `n` cells is read, whatever there is behind them.
string_at-Holds :
    (rest n : ℕ) (m : ℕ → ℕ) (a : ℕ) (s : List ℕ)
    → n ≤ rest
    → length s < n
    → Holds m a n s
    → string_at rest m a ≡ s
string_at-Holds rest zero m a s le lt h = absurd (omega arith)
string_at-Holds zero (suc n) m a s le lt h = absurd (omega arith)
string_at-Holds (suc rest) (suc n) m a [] le lt h = rw (h.0) refl
string_at-Holds (suc rest) (suc n) m a (c ∷ s) le lt h =
    rw (h.0, some_char)
      (ap (λ (t : List ℕ). c ∷ t)
        (string_at-Holds rest n m (a + 1) s (omega arith) (omega arith) h.2))
  where
    some_char : (c == 0) ≡ false
    some_char = ground (arith, h.1)

same_text_refl : (s : List ℕ) → same_text s s ≡ true
same_text_refl [] = refl
same_text_refl (c ∷ s) = ground (arith, same_text_refl s)

-- strings for so many parameters that are all empty
abbrev pub empty_strings : ℕ → List (List ℕ)
empty_strings zero = []
empty_strings (suc n) = [] ∷ empty_strings n

over_nothing : (w : List ℕ) → w ++ drop (length w) [] ≡ w
over_nothing [] = refl
over_nothing (c ∷ w) = append-nil (c ∷ w)

module _ {W : Type 0} (limits : Limits) (print : Message → W → W) where
  row_left : (j : ℕ) → 1 ≤ j → limits.max_length + 1 ≤ row limits j
  row_left j h = grind arith

  argument-Holds :
      (k : ℕ) (w : List ℕ) (m : ℕ → ℕ)
      → k < limits.max_parameters
      → length w ≤ limits.max_length
      → Holds m (row limits k) (limits.max_length + 1) w
      → argument limits print k m ≡ w
  argument-Holds k w m in_argv short h =
      string_at-Holds (row limits (limits.max_parameters - k)) (limits.max_length + 1) m
        (row limits k) w (row_left (limits.max_parameters - k) (omega arith)) (omega arith) h

  arguments-Rows :
      (k : ℕ) (ws : List (List ℕ)) (m : ℕ → ℕ)
      → AllFit limits ws
      → k + length ws ≤ limits.max_parameters
      → Rows limits m k ws
      → arguments limits print k (length ws) m ≡ ws
  arguments-Rows k [] m f h r = refl
  arguments-Rows k (w ∷ ws) m f h r =
      rw
        (
          argument-Holds k w m (omega arith) f.1 r.0,
          arguments-Rows (k + 1) ws m f.2 (omega arith) r.1,
        )
        refl

  Rows-over :
      (k n : ℕ) (ws : List (List ℕ)) (m : ℕ → ℕ)
      → length ws ≤ n
      → Rows limits m k (over ws (empty_strings n))
      → Rows limits m k ws
  Rows-over k n [] m h r = tt
  Rows-over k zero (w ∷ ws) m h r = absurd (omega arith)
  Rows-over k (suc n) (w ∷ ws) m h r = (
    subst (Holds m (row limits k) (limits.max_length + 1)) (over_nothing w) r.0,
    Rows-over (k + 1) n ws m (omega arith) r.1,
  )

  -- commands of other names
  abbrev pub AllOther : List ℕ → List (ShellCommand W) → Type 0
  AllOther name [] = Unit {0}
  AllOther name (command ∷ commands) =
      (same_text command.name name ≡ false) × AllOther name commands

  dispatch-found :
      (before after : List (ShellCommand W)) (command : ShellCommand W) (n : ℕ) (m : ℕ → ℕ) (w : W)
      → argument limits print 0 m ≡ command.name
      → AllOther command.name before
      → command.parameter_mask / 2 ^ n % 2 ≢ 0
      → dispatch limits print (before ++ (command ∷ after)) n m w
        ≡ command.handler (arguments limits print 1 n m) w
  unfolding dispatch
  dispatch-found [] after command n m w named other allowed =
      rw (named, same_text_refl command.name, bit) refl
    where
      bit : (command.parameter_mask / 2 ^ n % 2 == 0) ≡ false
      bit = ground (arith, allowed)
  dispatch-found (c ∷ before) after command n m w named other allowed =
      rw (named, other.0) (dispatch-found before after command n m w named other.1 allowed)

  -- With argv empty, a line of a registered command's name and of parameters, as many as its mask
  -- allows, all of characters above the space and none with a quote at its start, no more and no
  -- longer than the arrays allow: shell_execute calls the handler of the first command of that name, which is not
  -- `help`, with the parameters, and returns what it returns.
  pub shell_execute-dispatches :
      (before after : List (ShellCommand W)) (command : ShellCommand W) (params : List (List ℕ))
      (m : ℕ → ℕ) (w : W)
      → AllFit limits (command.name ∷ params)
      → suc (length params) ≤ limits.max_parameters
      → Rows limits m 0 (empty_strings limits.max_parameters)
      → same_text command.name help_name ≡ false
      → AllOther command.name before
      → command.parameter_mask / 2 ^ length params % 2 ≢ 0
      → (m' : ℕ → ℕ) × (shell_execute limits print
            (some (spelled (command.name ∷ params)))
            (record { commands = before ++ (command ∷ after); argvv = m; world = w })
          ≡ (
            (command.handler params w).0,
            record {
              commands = before ++ (command ∷ after);
              argvv = m';
              world = (command.handler params w).1;
            },
          ))
  unfolding shell_execute execute_parameters
  shell_execute-dispatches before after command params m w f count r no_help other allowed = (
    built.0,
    ap
          (λ (x : Option ℕ × (ℕ → ℕ)).
            after_split limits print x
              (record { commands = before ++ (command ∷ after); argvv = m; world = w }))
          built.1
        ∙ runs built.0 named rows,
  )
    where
      many : (n : ℕ) → length (empty_strings n) ≡ n
      many zero = refl
      many (suc n) = ap suc (many n)

      built :
          (m' : ℕ → ℕ) × (build_command_parameters limits (spelled (command.name ∷ params)) m
            ≡ (some (suc (length params)), m'))
          × Rows limits m' 0 (over (command.name ∷ params) (empty_strings limits.max_parameters))
      built =
          build_command_parameters-spelled limits (command.name ∷ params)
            (empty_strings limits.max_parameters) m f count
            (omega (arith, count, many limits.max_parameters)) r

      rows : Rows limits built.0 0 (command.name ∷ params)
      rows = Rows-over 0 limits.max_parameters (command.name ∷ params) built.0 count built.2

      named : argument limits print 0 built.0 ≡ command.name
      named = argument-Holds 0 command.name built.0 (omega (arith, count)) f.1 rows.0

      minus : suc (length params) - 1 ≡ length params
      minus = omega arith

      runs :
          (m' : ℕ → ℕ)
          → argument limits print 0 m' ≡ command.name
          → Rows limits m' 0 (command.name ∷ params)
          → execute_parameters limits print
              (suc (length params))
              (record { commands = before ++ (command ∷ after); argvv = m'; world = w })
            ≡ (
              (command.handler params w).0,
              record {
                commands = before ++ (command ∷ after);
                argvv = m';
                world = (command.handler params w).1;
              },
            )
      runs m' named rows =
          rw (named, no_help, minus)
            (ap
              (λ (x : ℕ × W).
                (x.0, record { commands = before ++ (command ∷ after); argvv = m'; world = x.1 }))
              (dispatch-found before after command (length params) m' w named other allowed
                ∙ ap (λ (x : List (List ℕ)). command.handler x w)
                    (arguments-Rows 1 params m' f.2 (omega (arith, count)) rows.1)))
