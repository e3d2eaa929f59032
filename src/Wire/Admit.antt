-- ===== src/Wire/Admit.antt =====
-- phronesis_admit_seat, _admit_model and _agent_status of capnp_api.c.
pub mod Running
use phronesis.Base.{ℕ, Bool, false, not, Option, none, some, [], if◌then◌else◌}
use phronesis.Base.Int.{ℤ, pos}
use phronesis.Base.CString.{Bytes, codes, nonempty}
use phronesis.Policy.Env.{Env}
use phronesis.World.{World, Os}
use phronesis.Supervisor.Types.{Supervisor, int_of_state}
use phronesis.Wire.Message.{ctext, Written, Writer, written_bytes, send}
use phronesis.Supervisor.Lifecycle.Status.{
  AgentStatus, StatusResult, status, no_status, supervisor_status,
}
use phronesis.Wire.Agents.{AgentId, agent_id_to_hex}
use phronesis.Wire.Checks.{
  Codec, SeatCheck, ModelCheck, publish_run, Emitted, open_in, zero_agent, read_agent, invalid_for,
  invalid_body, check_seat, check_model,
}

-- The agent of an AdmitSeat, an AdmitModel or an AgentQuery, and the writers of the messages that are
-- made of it.
pub record AdmitCodec : Type 0 where
  pub checks : Codec
  pub read_admit_seat : Bytes → Option (Option AgentId)
  pub read_admit_model : Bytes → Option (Option AgentId)
  pub read_query : Bytes → Option (Option AgentId)
  pub write_seat : Writer SeatCheck
  pub write_model : Writer ModelCheck

-- The SeatCheck that is made, which publishes a run.
abbrev pub publish_by : AgentId → SeatCheck
publish_by id = record { agent = some id; action = publish_run }

abbrev pub model_by : AgentId → ModelCheck
model_by id = record { agent = some id }

module _ (os : Os) (getenv : Env) (mem : ℕ → Bool) (codec : AdmitCodec) where
  unfoldable pub admit_seat : Supervisor → Option Bytes → World → Emitted
  unfolding check_seat send
  admit_seat s body w = elim (open_in codec.read_admit_seat body) [
    | none ↦ invalid_body s w
    | some id ↦ elim (written_bytes (send mem codec.write_seat (publish_by (read_agent id)))) [
      | none ↦ invalid_for (read_agent id) s w
      | some inner ↦ check_seat os getenv codec.checks s (some inner) w
    ]
  ]

  unfoldable pub admit_model : Supervisor → Option Bytes → World → Emitted
  unfolding check_model send
  admit_model s body w = elim (open_in codec.read_admit_model body) [
    | none ↦ invalid_body s w
    | some id ↦ elim (written_bytes (send mem codec.write_model (model_by (read_agent id)))) [
      | none ↦ invalid_for (read_agent id) s w
      | some inner ↦ check_model os getenv codec.checks s (some inner) w
    ]
  ]

-- What phronesis_agent_status sends: the status of the agent, or that it is missing.
pub data AgentReply : Type 0 where
  agent_found : AgentId → AgentStatus → AgentReply
  agent_missing : AgentId → AgentReply

abbrev pub reply_of : AgentId → StatusResult → AgentReply
reply_of id (status st) = agent_found id st
reply_of id (no_status rc) = agent_missing id

-- The supervisor is taken to be given.
unfoldable pub agent_status :
    Os → AdmitCodec → Supervisor → Option Bytes → World → AgentReply × Supervisor × World
unfolding agent_id_to_hex supervisor_status
agent_status os codec s body w = elim (open_in codec.read_query body) [
  | none ↦ (agent_missing zero_agent, s, w)
  | some id ↦
      let agent = read_agent id in
      let (st, s', w') = supervisor_status os s (some (agent_id_to_hex agent)) w in
      if not (nonempty (agent_id_to_hex agent))
      then (agent_missing agent, s, w)
      else (reply_of agent st, s', w')
]

-- enum AgentState of the protocol
pub data SentState : Type 0 where
  of_state : ℤ → SentState
  missing_state : SentState

-- SeatMode_develop, which is sent for every agent, and the zero of the memset
pub data SeatMode : Type 0 where
  develop : SeatMode

-- struct AgentStatus of the protocol
pub record SentStatus : Type 0 where
  pub id : AgentId
  pub state : SentState
  pub pid : ℤ
  pub pgid : ℤ
  pub exit_status : ℤ
  pub mode : SeatMode
  pub workspace : Bytes
  pub has_cgroup : Bool
  pub detail : Bytes

unfoldable pub sent_status : AgentReply → SentStatus
unfolding ctext
sent_status (agent_found id st) = record {
  id = id;
  state = of_state (int_of_state st.state);
  pid = st.pid;
  pgid = st.pgid;
  exit_status = st.exit_status;
  mode = develop;
  workspace = ctext (some st.workspace);
  has_cgroup = st.has_cgroup;
  detail = [];
}
sent_status (agent_missing id) = record {
  id = id;
  state = missing_state;
  pid = pos 0;
  pgid = pos 0;
  exit_status = pos 0;
  mode = develop;
  workspace = [];
  has_cgroup = false;
  detail = ctext (some (codes "agent not found"));
}

unfoldable pub agent_status_message : (ℕ → Bool) → Writer SentStatus → AgentReply → Written
unfolding sent_status send
agent_status_message mem writer r = send mem writer (sent_status r)
