-- ===== src/Cli/Outcomes.antt =====
-- What the exit codes of the command line say.
use phronesis.Base.{◌≡◌, ◌≢◌, refl, none, some, List, ◌∷◌, arith}
use phronesis.Base.CString.{Bytes}
use phronesis.Policy.Types.{ok, deny, PolicyResult}
use phronesis.Policy.Env.{Env}
use phronesis.World.{World, Os}
use phronesis.Supervisor.Types.{Supervisor}
use phronesis.Supervisor.Check.{policy_check, Checked}
use phronesis.Cli.Commands.{run_check, check_outcome, path_argument}

check_outcome-passes :
    (c : Checked) (w : World)
    → (check_outcome c w).code ≡ 0
    → (r : PolicyResult) × (c ≡ (ok, some r)) × (r.decision ≢ deny)
check_outcome-passes (ok, some r) w h = (r, refl, λ e. ground arith)
check_outcome-passes (ok, none) w h = absurd (ground arith)
check_outcome-passes (_, o) w h = absurd (ground arith)

-- The command "check" exits with 0 only if the check of its arguments returned PHRONESIS_OK with a
-- result that does not deny.
pub run_check_passes :
    (os : Os) (getenv : Env) (s : Supervisor) (id tool action : Bytes) (rest : List Bytes)
    (w : World)
    → (run_check os getenv s (id ∷ tool ∷ action ∷ rest) w).code ≡ 0
    → (r : PolicyResult) × ((policy_check os getenv s
          (some id)
          (some tool)
          (some action)
          (path_argument rest)
          w).0
        ≡ (ok, some r))
      × (r.decision ≢ deny)
unfolding run_check
run_check_passes os getenv s id tool action rest w h = check_outcome-passes _ _ h
