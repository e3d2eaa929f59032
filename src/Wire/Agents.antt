-- ===== src/Wire/Agents.antt =====
-- phronesis_agent_id_to_hex of policy.c, and workspace_for and admit_running_agent of capnp_api.c. The
-- supervisor is taken to be given.
pub mod Distinct
use phronesis.Base.{
  ℕ, zero, suc, ◌/◌, ◌%◌, ◌&&◌, Option, none, some, [], ◌∷◌, ◌++◌, ◌==◌, if◌then◌else◌,
}
use phronesis.Base.CString.{Bytes, CString, nonempty}
use phronesis.Policy.Types.{Reason, invalid_message}
use phronesis.World.{World, Os}
use phronesis.ActionLog.Escape.{hex_digit}
use phronesis.Supervisor.Types.{Supervisor}
use phronesis.Supervisor.Lifecycle.Status.{
  StatusResult, status, no_status, supervisor_status, require_running_agent,
}

-- struct AgentId, two numbers below 2 ^ 64
pub record AgentId : Type 0 where
  pub hi : ℕ
  pub lo : ℕ

-- The last k hexadecimal digits of n.
unfoldable pub hex_digits : ℕ → ℕ → Bytes
hex_digits zero n = []
hex_digits (suc k) n = hex_digits k (n / 16) ++ hex_digit (n % 16) ∷ []

-- "%016llx%016llx"
unfoldable pub agent_id_to_hex : AgentId → Bytes
unfolding hex_digits
agent_id_to_hex id =
    if id.hi == 0 && id.lo == 0 then [] else hex_digits 16 id.hi ++ hex_digits 16 id.lo

-- A workspace that is set; it fits the caller's buffer, which is as long as the field.
abbrev pub workspace_of : StatusResult → CString
workspace_of (no_status rc) = none
workspace_of (status st) = if nonempty st.workspace then some st.workspace else none

unfoldable pub workspace_for : Os → Supervisor → AgentId → World → CString × Supervisor × World
workspace_for os s id w =
    let hex = agent_id_to_hex id in
    let (st, s', w') = supervisor_status os s (some hex) w in
    if nonempty hex then (workspace_of st, s', w') else (none, s, w)

-- `none` admits the agent, `some` is the code of a denial.
unfoldable pub admit_running_agent :
    Os → Supervisor → AgentId → World → Option Reason × Supervisor × World
admit_running_agent os s id w =
    let admitted = require_running_agent os s (some (agent_id_to_hex id)) w in
    if id.hi == 0 && id.lo == 0 then (some invalid_message, s, w) else admitted
