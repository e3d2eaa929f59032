-- ===== src/Cli/Commands.antt =====
-- The commands of main in phronesis.c.
use phronesis.Base.{ℕ, Option, none, some, List, [], ◌∷◌, ◌++◌, if◌then◌else◌}
use phronesis.Base.CString.{Bytes, CString, codes, strcmp_eq}
use phronesis.Base.Decimal.{print_ℤ}
use phronesis.Policy.Types.{Rc, ok, is_ok, Decision, deny, allow, prompt}
use phronesis.Policy.Env.{Env}
use phronesis.World.{World, Os}
use phronesis.Supervisor.Types.{Supervisor, AgentState, stopped, running, failed, other}
use phronesis.Supervisor.Open.{supervisor_open}
use phronesis.Supervisor.Check.{policy_check, Checked}
use phronesis.Supervisor.Lifecycle.Start.{supervisor_start}
use phronesis.Supervisor.Lifecycle.Status.{
  AgentStatus, StatusResult, status, no_status, supervisor_status, supervisor_log,
}
use phronesis.Supervisor.Lifecycle.Stop.{supervisor_stop}
use phronesis.Cli.Arguments.{Invocation, command, exits, parse_options, behind_dashes}

abbrev pub state_name : AgentState → Bytes
state_name running = codes "running"
state_name failed = codes "failed"
state_name stopped = codes "stopped"
state_name (other z) = codes "stopped"

abbrev pub decision_name : Decision → Bytes
decision_name allow = codes "allow"
decision_name prompt = codes "prompt"
decision_name deny = codes "deny"

-- The exit code, what is printed, and the world that is left.
pub record Outcome : Type 0 where
  pub code : ℕ
  pub out : Bytes
  pub world : World

abbrev pub outcome : ℕ → Bytes → World → Outcome
outcome c t w = record { code = c; out = t; world = w }

-- A line for a call that returned PHRONESIS_OK, and exit code 1 for another one.
abbrev line_if_ok : Rc → Bytes → World → Outcome
line_if_ok rc line w = if is_ok rc then outcome 0 line w else outcome 1 [] w

unfoldable pub run_start : Os → Supervisor → List Bytes → World → Outcome
run_start os s [] w = outcome 2 [] w
run_start os s (id ∷ rest) w = elim (behind_dashes rest) [
  | [] ↦ outcome 2 [] w
  | cmd ∷ argv ↦
      let (rc, s', w') =
        supervisor_start os s (some id) (some (codes "develop")) none (cmd ∷ argv) w in
      line_if_ok rc (codes "started " ++ (id ++ b'\n' ∷ [])) w'
]

unfoldable pub status_line : AgentStatus → Bytes
status_line st =
    codes "id="
    ++ (st.id
        ++ (codes " state="
            ++ (state_name st.state
                ++ (codes " pid="
                    ++ (print_ℤ st.pid
                        ++ (codes " pgid="
                            ++ (print_ℤ st.pgid
                                ++ (codes " mode=" ++ (st.mode ++ b'\n' ∷ [])))))))))

abbrev status_outcome : StatusResult → World → Outcome
status_outcome (no_status rc) w = outcome 1 [] w
status_outcome (status st) w = outcome 0 (status_line st) w

unfoldable pub run_status : Os → Supervisor → List Bytes → World → Outcome
run_status os s [] w = outcome 2 [] w
run_status os s (id ∷ rest) w =
    let (st, s', w') = supervisor_status os s (some id) w in status_outcome st w'

unfoldable pub run_stop : Os → Supervisor → List Bytes → World → Outcome
run_stop os s [] w = outcome 2 [] w
run_stop os s (id ∷ rest) w =
    let (rc, s', w') = supervisor_stop os s (some id) w in
    line_if_ok rc (codes "stopped " ++ (id ++ b'\n' ∷ [])) w'

unfoldable pub run_log : Os → Supervisor → List Bytes → World → Outcome
run_log os s (id ∷ kind ∷ detail ∷ rest) w =
    let (rc, w') = supervisor_log os s (some id) (some kind) (some detail) w in line_if_ok rc [] w'
run_log os s _ w = outcome 2 [] w

-- A result is stored whenever the check returns PHRONESIS_OK.
abbrev pub check_outcome : Checked → World → Outcome
check_outcome (ok, some r) w =
    outcome (elim r.decision [ deny ↦ 2 | allow ↦ 0 | prompt ↦ 0 ])
      (codes "decision="
        ++ (decision_name r.decision ++ (codes " reason=" ++ (r.reason ++ b'\n' ∷ []))))
      w
check_outcome _ w = outcome 1 [] w

abbrev pub path_argument : List Bytes → CString
path_argument [] = none
path_argument (path ∷ rest) = some path

unfoldable pub run_check : Os → Env → Supervisor → List Bytes → World → Outcome
run_check os getenv s (id ∷ tool ∷ action ∷ rest) w =
    let (checked, s', w') =
      policy_check os getenv s (some id) (some tool) (some action) (path_argument rest) w in
    check_outcome checked w'
run_check os getenv s _ w = outcome 2 [] w

unfoldable pub run_command : Os → Env → Supervisor → Bytes → List Bytes → World → Outcome
unfolding run_start run_status run_stop run_log run_check
run_command os getenv s cmd args w =
    if strcmp_eq cmd (codes "start")
    then run_start os s args w
    else if strcmp_eq cmd (codes "status")
    then run_status os s args w
    else if strcmp_eq cmd (codes "stop")
    then run_stop os s args w
    else if strcmp_eq cmd (codes "log")
    then run_log os s args w
    else if strcmp_eq cmd (codes "check")
    then run_check os getenv s args w
    else outcome 2 [] w

unfoldable pub run_opened : Os → Env → Option Supervisor → Bytes → List Bytes → World → Outcome
unfolding run_command
run_opened os getenv none cmd args w = outcome 1 [] w
run_opened os getenv (some s) cmd args w = run_command os getenv s cmd args w

unfoldable pub run_invocation : Os → Env → Invocation → World → Outcome
unfolding run_opened
run_invocation os getenv (exits code) w = outcome code [] w
run_invocation os getenv (command state runtime cmd args) w =
    let (opened, w') = supervisor_open os getenv state runtime w in
    run_opened os getenv opened.1 cmd args w'

-- argv without the program's name
unfoldable pub main : Os → Env → List Bytes → World → Outcome
unfolding run_invocation parse_options
main os getenv args w = run_invocation os getenv (parse_options none none args) w
