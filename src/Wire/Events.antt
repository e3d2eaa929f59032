-- ===== src/Wire/Events.antt =====
-- The trace events that phronesis_check_seat, _path and _shell of capnp_api.c make in playground builds,
-- with those of phronesis_policy_eval in policy.c; phronesis_check_risk makes none.
use phronesis.Base.{
  true, false, not, Option, none, some, List, [], ◌∷◌, ◌++◌, leb, length, if◌then◌else◌,
}
use phronesis.Base.Int.{pos, negsuc}
use phronesis.Base.CString.{Bytes, CString, codes, is_set}
use phronesis.Policy.Types.{
  Decision, deny, allow, prompt, Reason, PolicyResult, invalid_message, reason_ordinal,
}
use phronesis.Policy.Eval.{policy_eval}
use phronesis.World.{World, Os}
use phronesis.ActionLog.Last.{until_nul}
use phronesis.Pack.View.{Texts}
use phronesis.Wire.Agents.{workspace_for}
use phronesis.Wire.Shell.{ShellCodec, is_allow}
use phronesis.Policy.Env.{Env, policy_deny_all}
use phronesis.Supervisor.Types.{Supervisor, path_max}
use phronesis.Trace.Event.{Layer, host, capnp, Phase, enter, gate, decide, error}
use phronesis.Trace.Ring.Calls.{Call, event_call}
use phronesis.Wire.Checks.{Codec, open_in, read_agent, path_or_null}

-- An event with code -1, no decision and no short circuit.
abbrev pub plain_event : Phase → Bytes → CString → Call
plain_event phase name detail = event_call host phase (some name) detail (negsuc 0) none false

-- An event that ends the check with a denial.
abbrev pub denial_event : Layer → Phase → Bytes → Bytes → Reason → Call
denial_event layer phase name detail code =
    event_call layer phase (some name) (some detail) (pos (reason_ordinal code))
      (some (codes "deny")) true

-- tool && tool[0] ? tool : ""
abbrev pub tool_detail : CString → CString
tool_detail tool = if is_set tool then tool else some []

unfoldable pub eval_events : Env → CString → List Call
unfolding policy_deny_all reason_ordinal
eval_events getenv tool =
    plain_event enter (codes "policy-eval") (tool_detail tool)
    ∷ (if policy_deny_all getenv
        then denial_event host decide (codes "policy-eval/deny-all") (codes "PHRONESIS_DENY_ALL")
            Reason.deny_all
          ∷ []
        else [])

unfoldable pub seat_events : Codec → Option Bytes → List Call
unfolding reason_ordinal
seat_events codec body =
    plain_event enter (codes "checkSeat") (some (codes "phronesis_check_seat"))
    ∷ elim (open_in codec.read_seat body) [
      | none ↦
          denial_event capnp error (codes "checkSeat/open") (codes "invalid Cap'n message")
            invalid_message
          ∷ []
      | some sc ↦ []
    ]

-- A check that ends before the evaluation makes none.
unfoldable pub path_events : Env → Codec → Option Bytes → List Call
unfolding eval_events policy_deny_all
path_events getenv codec body = elim (open_in codec.read_path_check body) [
  | none ↦ []
  | some pc ↦
      if policy_deny_all getenv
      then []
      else if leb path_max (length pc.path)
      then []
      else eval_events getenv (some (codes "fs"))
]

unfoldable pub decision_str : Decision → Bytes
decision_str allow = codes "allow"
decision_str prompt = codes "prompt"
decision_str deny = codes "deny"

-- The event of a path plane that does not allow the command.
abbrev pub short_circuit_event : PolicyResult → Call
unfolding decision_str reason_ordinal
short_circuit_event pr =
    event_call host decide (some (codes "checkShell/path-plane"))
      (some (codes "path plane short-circuit")) (pos (reason_ordinal pr.code))
      (some (decision_str pr.decision)) true

-- Behind the path plane; `inner` are the events of the packs.
abbrev pub pack_events : Texts → List Call → List Call
pack_events [] inner = []
pack_events (t ∷ argv) inner =
    plain_event enter (codes "checkShell/pack") (some (codes "multi-pack shell-check compose"))
    ∷ inner

-- A message that does not decode makes none.
unfoldable pub shell_events :
    Os → Env → ShellCodec → Supervisor → Option Bytes → World → List Call → List Call
unfolding policy_deny_all workspace_for policy_eval until_nul eval_events
shell_events os getenv codec s body w inner = elim (open_in codec.read_shell body) [
  | none ↦ []
  | some sc ↦
      let ws = (workspace_for os s (read_agent sc.agent) w).0 in
      let cwd = until_nul sc.cwd in
      let pr =
        policy_eval getenv ws (some (codes "shell")) (some (codes "exec")) (path_or_null cwd) in
      if policy_deny_all getenv
      then []
      else if leb path_max (length sc.cwd)
      then []
      else plain_event gate (codes "checkShell/path-plane") (some cwd)
        ∷ (eval_events getenv (some (codes "shell"))
            ++ (if not (is_allow pr.decision)
                then short_circuit_event pr ∷ []
                else pack_events sc.argv inner))
]
