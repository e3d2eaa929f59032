-- ===== src/Wire/Status.antt =====
-- phronesis_status of capnp_api.c, and version.c.
use phronesis.Base.{ℕ, Bool, true, false, Option, none, some, []}
use phronesis.Base.CString.{Bytes, codes}
use phronesis.Supervisor.Types.{Supervisor}
use phronesis.Wire.Message.{Written, Writer, send}

abbrev pub version_string : Bytes
version_string = codes "0.2.9"

abbrev pub api_version : ℕ
api_version = 3

-- struct PolicydStatus
pub record PolicydStatus : Type 0 where
  pub version : Bytes
  pub api : ℕ
  pub state_dir : Bytes
  pub runtime_dir : Bytes
  pub ready : Bool

-- The status that is sent, without or with a supervisor.
unfoldable pub policyd_status : Option Supervisor → PolicydStatus
policyd_status none = record {
  version = version_string;
  api = api_version;
  state_dir = [];
  runtime_dir = [];
  ready = false;
}
policyd_status (some s) = record {
  version = version_string;
  api = api_version;
  state_dir = s.state_dir;
  runtime_dir = s.runtime_dir;
  ready = true;
}

-- The message that phronesis_status sends; the texts are within INT_MAX.
unfoldable pub status_message : (ℕ → Bool) → Writer PolicydStatus → Option Supervisor → Written
unfolding policyd_status send
status_message mem writer s = send mem writer (policyd_status s)
