-- ===== src/Supervisor/Lifecycle/Status.antt =====
-- phronesis_supervisor_status, _log and _log_last, and the admission test of policy.c on top of it.
use phronesis.Base.{ℕ, Bool, ◌&&◌, not, Option, none, some, if◌then◌else◌}
use phronesis.Base.Int.{ℤ}
use phronesis.Base.CString.{Bytes, CString, is_set, or_empty, nonempty}
use phronesis.Policy.Types.{Rc, err_inval, Reason, invalid_message, tools_default_deny}
use phronesis.World.{World, Os}
use phronesis.ActionLog.Records.{action_log_append}
use phronesis.ActionLog.Last.{action_log_last}
use phronesis.Supervisor.Types.{Slot, AgentState, Supervisor, slot_at, is_running}
use phronesis.Supervisor.Ids.{valid_id}
use phronesis.Supervisor.Slots.{Loaded, loaded, not_loaded, load_agent}
use phronesis.Supervisor.SlotFile.{write_slot}
use phronesis.Supervisor.Lifecycle.Acquire.{reap_at}

-- phronesis_agent_status_t
pub record AgentStatus : Type 0 where
  pub id : Bytes
  pub state : AgentState
  pub pid : ℤ
  pub pgid : ℤ
  pub exit_status : ℤ
  pub mode : Bytes
  pub workspace : Bytes
  pub has_cgroup : Bool

abbrev pub status_of : Slot → AgentStatus
status_of a = record {
  id = a.id;
  state = a.state;
  pid = a.pid;
  pgid = a.pgid;
  exit_status = a.exit_status;
  mode = a.mode;
  workspace = a.workspace;
  has_cgroup = nonempty a.cgroup_path;
}

-- The status with PHRONESIS_OK, or the error.
pub data StatusResult : Type 0 where
  status : AgentStatus → StatusResult
  no_status : Rc → StatusResult

unfoldable pub status_loaded : Os → Loaded → Supervisor → World → StatusResult × Supervisor × World
status_loaded os (not_loaded rc) s w = (no_status rc, s, w)
status_loaded os (loaded i) s w =
    let (s', w1) = reap_at os s i w in
    let (rc, w2) = write_slot os s' (slot_at s' i) w1 in (status (status_of (slot_at s' i)), s', w2)

unfoldable pub supervisor_status :
    Os → Supervisor → CString → World → StatusResult × Supervisor × World
unfolding status_loaded
supervisor_status os s agent_id w =
    let (l, s', w') = load_agent os s (or_empty agent_id) w in
    if not (valid_id agent_id) then (no_status err_inval, s, w) else status_loaded os l s' w'

-- phronesis_policy_require_running_agent: `none` admits the agent, `some` is the code of a denial.
unfoldable pub admit : StatusResult → Option Reason
admit (no_status rc) = some tools_default_deny
admit (status st) = if is_running st.state then none else some tools_default_deny

unfoldable pub require_running_agent :
    Os → Supervisor → CString → World → Option Reason × Supervisor × World
unfolding admit
require_running_agent os s agent_id w =
    let (r, s', w') = supervisor_status os s agent_id w in
    if not (is_set agent_id) then (some invalid_message, s, w) else (admit r, s', w')

unfoldable pub supervisor_log : Os → Supervisor → CString → CString → CString → World → Rc × World
supervisor_log os s agent_id kind detail w =
    if is_set agent_id && not (valid_id agent_id)
    then (err_inval, w)
    else action_log_append os (some s.action_log) agent_id kind detail w

unfoldable pub supervisor_log_last : Os → Supervisor → ℕ → World → Rc × Bytes × World
supervisor_log_last os s buflen w = action_log_last os (some s.action_log) buflen w
