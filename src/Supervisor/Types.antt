-- ===== src/Supervisor/Types.antt =====
-- The state of the supervisor: agent_slot_t, struct phronesis_supervisor and phronesis_agent_state_t.
use phronesis.Base.{ℕ, zero, suc, Bool, true, false, List, [], ◌∷◌, set}
use phronesis.Base.Int.{ℤ, pos, negsuc}
use phronesis.Base.CString.{Bytes}

-- An enum read back from a file may hold any int.
pub data AgentState : Type 0 where
  stopped running failed : AgentState
  other : ℤ → AgentState

abbrev pub is_running : AgentState → Bool
is_running running = true
is_running _ = false

-- (int)state
abbrev pub int_of_state : AgentState → ℤ
int_of_state stopped = pos 0
int_of_state running = pos 1
int_of_state failed = pos 2
int_of_state (other z) = z

-- (phronesis_agent_state_t)state
abbrev pub state_of_int : ℤ → AgentState
state_of_int (pos zero) = stopped
state_of_int (pos (suc zero)) = running
state_of_int (pos (suc (suc zero))) = failed
state_of_int (pos (suc (suc (suc n)))) = other (pos (suc (suc (suc n))))
state_of_int (negsuc n) = other (negsuc n)

pub record Slot : Type 0 where
  pub in_use : Bool
  pub id : Bytes
  pub state : AgentState
  pub pid : ℤ
  pub pgid : ℤ
  pub exit_status : ℤ
  pub mode : Bytes
  pub workspace : Bytes
  pub cgroup_path : Bytes

-- memset(a, 0, sizeof(*a))
abbrev pub zero_slot : Slot
zero_slot = record {
  in_use = false;
  id = [];
  state = stopped;
  pid = pos 0;
  pgid = pos 0;
  exit_status = pos 0;
  mode = [];
  workspace = [];
  cgroup_path = [];
}

pub record Supervisor : Type 0 where
  pub state_dir : Bytes
  pub runtime_dir : Bytes
  pub action_log : Bytes
  pub agents_dir : Bytes
  pub agents : List Slot

abbrev pub max_agents : ℕ
max_agents = 16

abbrev pub id_max : ℕ
id_max = 64

abbrev pub mode_max : ℕ
mode_max = 32

abbrev pub path_max : ℕ
path_max = 512

abbrev pub detail_max : ℕ
detail_max = 512

abbrev pub slot_or : List Slot → ℕ → Slot
slot_or [] i = zero_slot
slot_or (a ∷ r) zero = a
slot_or (a ∷ r) (suc i) = slot_or r i

-- s->agents[i], read and written
abbrev pub slot_at : Supervisor → ℕ → Slot
slot_at s i = slot_or s.agents i

abbrev pub put_slot : Supervisor → ℕ → Slot → Supervisor
put_slot s i a = record s { agents = set s.agents i a }
