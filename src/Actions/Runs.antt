-- ===== src/Actions/Runs.antt =====
-- internal/actions/actions.go: the commands that `Run` executes.
use cloud_route_manager.Base.{Text, List, [], ◌∷◌, ◌++◌, Option, Error, wrapf, to_list}
use mathlib.Core.Option
use cloud_route_manager.Http.{Context}
use cloud_route_manager.Actions.{Vars, Shell, Runner, expand, run_command}

module _ (system : Shell) where
  open system use {World}

  module _ (r : Runner) (ctx : Context) (vars : Vars) where
    -- What the commands return, run one after the other, and the world behind the last one.
    unfoldable pub results : List Text → World → List (Text × Option Error)
    results [] w = []
    results (raw ∷ raws) w =
        let (e, w') = run_command system r ctx vars raw w in (expand raw vars, e) ∷ results raws w'

    unfoldable pub behind : List Text → World → World
    behind [] w = w
    behind (raw ∷ raws) w = behind raws (run_command system r ctx vars raw w).1

    -- The errors of those that failed, each with its command.
    abbrev pub failures : List (Text × Option Error) → List Error
    failures [] = []
    failures ((command, e) ∷ rs) =
        to_list (Option.map (wrapf "action %q: %w" (command ∷ [])) e) ++ failures rs
