-- ===== src/Firewall/Commands.antt =====
-- The runner of commands: `CommandRunner` and `ExecRunner` of
-- internal/firewall/command_runner.go. The start of a process is a parameter.
use bulb.Base.{List, [], ◌∷◌, ◌++◌, Text, codes, trim_space, join, Option, none, some}
use bulb.Base.Result.{M, Result, Error, ok, err}

-- `Output` only reads here, as the commands that the backends give it do. What it returns beside
-- an error is `error_output`.
pub record CommandRunner (S : Type 0) : Type 0 where
  pub run : List Text → M S (Unit {0})
  pub run_input : Text → List Text → M S (Unit {0})
  pub output : List Text → S → Result Text
  pub error_output : List Text → S → Text

-- `cmd.CombinedOutput()` with the command's standard input.
abbrev pub Exec : Type 0 → Type 0
Exec S = Text → List Text → S → S × (Text × Option Error)

-- `%s %v: %w: %s` of a command that failed.
unfoldable pub command_error : List Text → Error → Text → Error
unfolding join
command_error [] e output = e
command_error (name ∷ args) e output =
    name
    ++ (codes " ["
        ++ (join (codes " ") args ++ (codes "]: " ++ (e ++ (codes ": " ++ trim_space output)))))

abbrev pub combined : List Text → Text × Option Error → Result Text
combined args (output, none) = ok (trim_space output)
combined args (output, some e) = err (command_error args e output)

abbrev drop_text : Result Text → Result (Unit {0})
drop_text (ok output) = ok tt
drop_text (err e) = err e

module _ {S : Type 0} (exec : Exec S) where
  -- The trimmed output, and whether the command failed.
  unfoldable pub run_combined : Text → List Text → S → S × (Text × Result Text)
  unfolding trim_space command_error
  run_combined input args s =
      let (t, r) = exec input args s in (t, (trim_space r.0, combined args r))

  unfoldable pub exec_runner : CommandRunner S
  unfolding run_combined
  exec_runner = record {
    run = λ args s. let (t, r) = run_combined (codes "") args s in (t, drop_text r.1);
    run_input = λ input args s. let (t, r) = run_combined input args s in (t, drop_text r.1);
    output = λ args s. let (t, r) = run_combined (codes "") args s in r.1;
    error_output = λ args s. let (t, r) = run_combined (codes "") args s in r.0;
  }
