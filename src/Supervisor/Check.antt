-- ===== src/Supervisor/Check.antt =====
-- phronesis_policy_check of supervisor.c: the string bridge with an agent's workspace.
pub mod Admission
use phronesis.Base.{ℕ, Bool, false, ◌&&◌, ◌||◌, not, Option, none, some, ◌++◌, if◌then◌else◌}
use phronesis.Base.CString.{
  Bytes, CString, codes, is_set, or_empty, nonempty, strcmp_eq, snprintf_s,
}
use phronesis.Policy.Types.{
  Rc, ok, err_inval, err_notfound, Decision, deny, allow, prompt, PolicyResult, policy_result_set,
  Reason,
}
use phronesis.Policy.Env.{Env, policy_deny_all}
use phronesis.Policy.Eval.{policy_eval}
use phronesis.World.{World, Os}
use phronesis.ActionLog.Records.{action_log_append}
use phronesis.Supervisor.Types.{Supervisor, slot_at, detail_max}
use phronesis.Supervisor.Ids.{valid_id}
use phronesis.Supervisor.Slots.{Loaded, loaded, not_loaded, load_agent}
use phronesis.Supervisor.SlotFile.{write_slot}
use phronesis.Supervisor.Lifecycle.Acquire.{reap_at}
use phronesis.Supervisor.Lifecycle.Status.{require_running_agent}

abbrev decision_digit : Decision → Bytes
decision_digit deny = codes "0"
decision_digit allow = codes "1"
decision_digit prompt = codes "2"

abbrev detail_text : CString → CString → Decision → Bytes
detail_text tool action d =
    codes "tool="
    ++ (or_empty tool
        ++ (codes " action=" ++ (or_empty action ++ (codes " decision=" ++ decision_digit d))))

-- What a check returns: the status, and what it has stored in *out, if it has.
abbrev pub Checked : Type 0
Checked = Rc × Option PolicyResult

-- The decision is logged, whatever the log returns.
unfoldable pub log_decision :
    Os → Supervisor → CString → Bytes → PolicyResult → World → Checked × Supervisor × World
log_decision os s agent_id detail r w =
    let (rc, w') =
      action_log_append os (some s.action_log) agent_id (some (codes "policy"))
        (some (snprintf_s detail_max detail)) w in
    ((ok, some r), s, w')

-- The workspace of the agent in slot i, or NULL.
abbrev pub workspace_at : Supervisor → ℕ → CString
workspace_at s i = if nonempty (slot_at s i).workspace then some (slot_at s i).workspace else none

-- From the evaluation on.
unfoldable pub check_eval :
    Os
    → Env
    → Supervisor
    → CString
    → CString
    → CString
    → CString
    → CString
    → World
    → Checked × Supervisor × World
unfolding log_decision
check_eval os getenv s agent_id ws tool action path w =
    let r = policy_eval getenv ws tool action path in
    log_decision os s agent_id (detail_text tool action r.decision ++ (codes " " ++ r.reason)) r w

unfoldable pub check_loaded :
    Os
    → Env
    → Loaded
    → Supervisor
    → CString
    → CString
    → CString
    → CString
    → World
    → Checked × Supervisor × World
unfolding check_eval
check_loaded os getenv (loaded i) s agent_id tool action path w =
    let (s', w1) = reap_at os s i w in
    let (rc, w2) = write_slot os s' (slot_at s' i) w1 in
    check_eval os getenv s' agent_id (workspace_at s' i) tool action path w2
check_loaded os getenv (not_loaded err_notfound) s agent_id tool action path w =
    check_eval os getenv s agent_id none tool action path w
check_loaded os getenv (not_loaded rc) s agent_id tool action path w = ((rc, none), s, w)

-- The agent's workspace is looked up, and the table is evaluated.
unfoldable pub check_agent :
    Os
    → Env
    → Supervisor
    → CString
    → CString
    → CString
    → CString
    → World
    → Checked × Supervisor × World
unfolding check_loaded check_eval
check_agent os getenv s agent_id tool action path w =
    let (l, s', w') = load_agent os s (or_empty agent_id) w in
    if not (is_set agent_id)
    then check_eval os getenv s agent_id none tool action path w
    else if not (valid_id agent_id)
    then ((err_inval, none), s, w)
    else check_loaded os getenv l s' agent_id tool action path w'

-- Behind the admission test: a refusal is logged, an admission goes on to the table.
unfoldable pub check_admitted :
    Os
    → Env
    → Option Reason
    → Supervisor
    → CString
    → CString
    → CString
    → CString
    → World
    → Checked × Supervisor × World
unfolding check_agent log_decision
check_admitted os getenv none s agent_id tool action path w =
    check_agent os getenv s agent_id tool action path w
check_admitted os getenv (some code) s agent_id tool action path w =
    log_decision os s agent_id (detail_text tool action deny) (policy_result_set deny code) w

-- The tools that only a running agent may use.
abbrev pub needs_agent : CString → Bool
needs_agent none = false
needs_agent (some tool) = strcmp_eq tool (codes "seat") || strcmp_eq tool (codes "model")

unfoldable pub policy_check :
    Os
    → Env
    → Supervisor
    → CString
    → CString
    → CString
    → CString
    → World
    → Checked × Supervisor × World
unfolding check_admitted
policy_check os getenv s agent_id tool action path w =
    let (refusal, s', w') = require_running_agent os s agent_id w in
    if not (policy_deny_all getenv) && needs_agent tool
    then check_admitted os getenv refusal s' agent_id tool action path w'
    else check_agent os getenv s agent_id tool action path w
