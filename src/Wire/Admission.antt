-- ===== src/Wire/Admission.antt =====
-- What the checks on messages allow.
use phronesis.Base.{◌≡◌, refl, true, Option, none, some, arith, Option-cases, inl, inr}
use phronesis.Base.CString.{Bytes, codes, strcmp_eq}
use phronesis.Policy.Types.{allow}
use phronesis.Policy.Env.{Env}
use phronesis.Policy.Eval.Decisions.{IsContained, policy_eval-IsContained}
use phronesis.World.{World, Os}
use phronesis.ActionLog.Last.{until_nul}
use phronesis.Supervisor.Types.{Supervisor, is_running}
use phronesis.Supervisor.Lifecycle.Status.{
  AgentStatus, status, supervisor_status, admit, require_running_agent,
}
use phronesis.Supervisor.Check.Admission.{admit-running}
use phronesis.Wire.Agents.{AgentId, agent_id_to_hex, workspace_for, admit_running_agent}
use phronesis.Wire.Checks.{
  Codec, SeatCheck, PathCheck, open_in, read_agent, check_seat, check_path, path_or_null,
  path_action_name,
}

-- The agent is known and runs.
abbrev pub IsRunningAgent : Os → Supervisor → AgentId → World → Type 0
IsRunningAgent os s id w =
    (st : AgentStatus) × ((supervisor_status os s (some (agent_id_to_hex id)) w).0 ≡ status st)
    × (is_running st.state ≡ true)

admitted_running :
    (os : Os) (s : Supervisor) (id : AgentId) (w : World)
    → (admit_running_agent os s id w).0 ≡ none
    → IsRunningAgent os s id w
admitted_running os s id w h = admit-running _ admitted
  where
    admitted : admit (supervisor_status os s (some (agent_id_to_hex id)) w).0 ≡ none
    admitted = unfold admit_running_agent require_running_agent in ground arith

-- A seat message that is allowed decodes to a message of an agent that runs.
pub check_seat-IsRunningAgent :
    (os : Os) (getenv : Env) (codec : Codec) (s : Supervisor) (body : Option Bytes) (w : World)
    → (check_seat os getenv codec s body w).result.decision ≡ allow
    → (sc : SeatCheck) × (open_in codec.read_seat body ≡ some sc)
      × IsRunningAgent os s (read_agent sc.agent) w
unfolding check_seat
check_seat-IsRunningAgent os getenv codec s body w h =
    elim (Option-cases (open_in codec.read_seat body)) [
      | inl e ↦ absurd (ground arith)
      | inr (sc, e) ↦ elim (Option-cases (admit_running_agent os s (read_agent sc.agent) w).0) [
        | inl n ↦ (sc, e, admitted_running os s (read_agent sc.agent) w n)
        | inr (code, n) ↦ absurd (ground arith)
      ]
    ]

-- A path message that is allowed decodes to a message whose path, cut at its first NUL, is contained in
-- the workspace of its agent and not sensitive.
pub check_path-IsContained :
    (os : Os) (getenv : Env) (codec : Codec) (s : Supervisor) (body : Option Bytes) (w : World)
    → (check_path os getenv codec s body w).result.decision ≡ allow
    → (pc : PathCheck) × (open_in codec.read_path_check body ≡ some pc)
      × IsContained
          (workspace_for os s (read_agent pc.agent) w).0
          (path_or_null (until_nul pc.path))
unfolding check_path
check_path-IsContained os getenv codec s body w h =
    elim (Option-cases (open_in codec.read_path_check body)) [
      | inl e ↦ absurd (ground arith)
      | inr (pc, e) ↦ (
        pc,
        e,
        (policy_eval-IsContained getenv (workspace_for os s (read_agent pc.agent) w).0
            (some (codes "fs")) (some (path_action_name pc.action))
            (path_or_null (until_nul pc.path)) (ground arith) (unfold strcmp_eq in refl)
            (unfold strcmp_eq in refl)).0,
      )
    ]
