-- ===== src/Wire/Checks.antt =====
-- phronesis_check_seat, _model, _path and _risk of capnp_api.c. What a check emits is its decision and
-- the agent that is echoed; the message that holds them is built by the codec.
use phronesis.Base.{ℕ, ◌||◌, Option, none, some, leb, ltb, length, ◌==◌, if◌then◌else◌, ◌*◌}
use phronesis.Base.CString.{Bytes, CString, codes, nonempty}
use phronesis.Policy.Types.{
  deny, allow, prompt, Reason, invalid_message, field_too_long, seat_board_allow,
  unknown_seat_action, model_start_allow, secret_export_denied, high_risk_prompt, PolicyResult,
  policy_result_set,
}
use phronesis.Policy.Env.{Env, policy_deny_all}
use phronesis.Policy.Eval.{policy_eval}
use phronesis.World.{World, Os}
use phronesis.ActionLog.Last.{until_nul}
use phronesis.Supervisor.Types.{Supervisor, path_max}
use phronesis.Wire.Agents.{AgentId, workspace_for, admit_running_agent}

pub data SeatAction : Type 0 where
  publish_run read_run list_runs list_events : SeatAction
  other_seat : ℕ → SeatAction

pub data PathAction : Type 0 where
  read_path write_path delete_path : PathAction
  other_path : ℕ → PathAction

pub data RiskAction : Type 0 where
  secret_export : RiskAction
  other_risk : ℕ → RiskAction

-- The decoded messages; a null AgentId pointer is `none`.
pub record SeatCheck : Type 0 where
  pub agent : Option AgentId
  pub action : SeatAction

pub record ModelCheck : Type 0 where
  pub agent : Option AgentId

pub record PathCheck : Type 0 where
  pub agent : Option AgentId
  pub action : PathAction
  -- The text, which may hold a NUL.
  pub path : Bytes

pub record RiskCheck : Type 0 where
  pub agent : Option AgentId
  pub action : RiskAction

-- The codec: `none` is a body that is no message.
pub record Codec : Type 0 where
  pub read_seat : Bytes → Option SeatCheck
  pub read_model : Bytes → Option ModelCheck
  pub read_path_check : Bytes → Option PathCheck
  pub read_risk : Bytes → Option RiskCheck

-- PHRONESIS_CAPNP_MAX_BODY
abbrev pub max_body : ℕ
max_body = 512 * 1024

-- `none` is a failure: no body, a body that is too long, or one that is no message.
abbrev pub open_in : {M : Type 0} → (Bytes → Option M) → Option Bytes → Option M
open_in decode none = none
open_in decode (some body) =
    if length body == 0 || ltb max_body (length body) then none else decode body

abbrev pub zero_agent : AgentId
zero_agent = record { hi = 0; lo = 0 }

abbrev pub read_agent : Option AgentId → AgentId
read_agent none = zero_agent
read_agent (some id) = id

-- What is emitted, and what is left.
pub record Emitted : Type 0 where
  pub result : PolicyResult
  pub agent : AgentId
  pub supervisor : Supervisor
  pub world : World

abbrev pub emit : PolicyResult → AgentId → Supervisor → World → Emitted
emit r id s w = record { result = r; agent = id; supervisor = s; world = w }

-- An admitted agent is answered with `r`, another one with the code of its denial.
abbrev pub if_admitted : Option Reason → PolicyResult → AgentId → Supervisor → World → Emitted
if_admitted none r id s w = emit r id s w
if_admitted (some code) r id s w = emit (policy_result_set deny code) id s w

abbrev pub seat_result : SeatAction → PolicyResult
seat_result (other_seat n) = policy_result_set deny unknown_seat_action
seat_result _ = policy_result_set allow seat_board_allow

abbrev denied_by_env : AgentId → Supervisor → World → Emitted
denied_by_env id s w = emit (policy_result_set deny Reason.deny_all) id s w

abbrev pub invalid_for : AgentId → Supervisor → World → Emitted
invalid_for id s w = emit (policy_result_set deny invalid_message) id s w

abbrev pub invalid_body : Supervisor → World → Emitted
invalid_body s w = invalid_for zero_agent s w

unfoldable pub check_seat : Os → Env → Codec → Supervisor → Option Bytes → World → Emitted
check_seat os getenv codec s body w = elim (open_in codec.read_seat body) [
  | none ↦ invalid_body s w
  | some sc ↦
      let agent = read_agent sc.agent in
      let (code, s', w') = admit_running_agent os s agent w in
      if policy_deny_all getenv
      then denied_by_env agent s w
      else if_admitted code (seat_result sc.action) agent s' w'
]

unfoldable pub check_model : Os → Env → Codec → Supervisor → Option Bytes → World → Emitted
check_model os getenv codec s body w = elim (open_in codec.read_model body) [
  | none ↦ invalid_body s w
  | some mc ↦
      let agent = read_agent mc.agent in
      let (code, s', w') = admit_running_agent os s agent w in
      if policy_deny_all getenv
      then denied_by_env agent s w
      else if_admitted code (policy_result_set allow model_start_allow) agent s' w'
]

-- A value outside of the enum reads.
abbrev pub path_action_name : PathAction → Bytes
path_action_name write_path = codes "write"
path_action_name delete_path = codes "delete"
path_action_name _ = codes "read"

abbrev pub path_or_null : Bytes → CString
path_or_null path = if nonempty path then some path else none

unfoldable pub check_path : Os → Env → Codec → Supervisor → Option Bytes → World → Emitted
check_path os getenv codec s body w = elim (open_in codec.read_path_check body) [
  | none ↦ invalid_body s w
  | some pc ↦
      let agent = read_agent pc.agent in
      let (ws, s', w') = workspace_for os s agent w in
      if policy_deny_all getenv
      then denied_by_env agent s w
      else if leb path_max (length pc.path)
      then emit (policy_result_set deny field_too_long) agent s' w'
      else emit
          (policy_eval getenv ws (some (codes "fs")) (some (path_action_name pc.action))
            (path_or_null (until_nul pc.path)))
          agent s' w'
]

abbrev pub risk_result : RiskAction → PolicyResult
risk_result secret_export = policy_result_set deny secret_export_denied
risk_result (other_risk n) = policy_result_set prompt high_risk_prompt

unfoldable pub check_risk : Env → Codec → Supervisor → Option Bytes → World → Emitted
check_risk getenv codec s body w = elim (open_in codec.read_risk body) [
  | none ↦ invalid_body s w
  | some rc ↦
      let agent = read_agent rc.agent in
      if policy_deny_all getenv
      then denied_by_env agent s w
      else emit (risk_result rc.action) agent s w
]
