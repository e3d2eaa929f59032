-- ===== src/Trace/Event.antt =====
-- A trace event, the words of its enums, and the copies into its fixed fields: pd_trace_event_t,
-- layer_str, phase_str, copy_trunc and event_reset of policy_trace.c.
use phronesis.Base.{ℕ, Bool, false, none, some, List, [], leb, length, if◌then◌else◌}
use phronesis.Base.Int.{ℤ, pos, negsuc}
use phronesis.Base.CString.{Bytes, CString, codes, snprintf_s}

-- pd_trace_layer_t
pub data Layer : Type 0 where
  pack host capnp : Layer

-- pd_trace_phase_t
pub data Phase : Type 0 where
  enter gate matched skip decide error : Phase

pub record Span : Type 0 where
  pub index : ℤ
  pub role : Bytes

-- `spans` holds the nspans spans in use.
pub record Event : Type 0 where
  pub seq : ℕ
  pub layer : Layer
  pub phase : Phase
  pub name : Bytes
  pub detail : Bytes
  pub spans : List Span
  pub code : ℤ
  pub decision : Bytes
  pub short_circuit : Bool
  pub used : Bool

abbrev pub ring_size : ℕ
ring_size = 64

abbrev pub spans_max : ℕ
spans_max = 8

abbrev pub name_max : ℕ
name_max = 128

abbrev pub detail_max : ℕ
detail_max = 256

abbrev pub role_max : ℕ
role_max = 32

abbrev pub decision_max : ℕ
decision_max = 16

abbrev pub layer_str : Layer → Bytes
layer_str pack = codes "pack"
layer_str host = codes "host"
layer_str capnp = codes "capnp"

abbrev pub phase_str : Phase → Bytes
phase_str enter = codes "enter"
phase_str gate = codes "gate"
phase_str matched = codes "match"
phase_str skip = codes "skip"
phase_str decide = codes "decide"
phase_str error = codes "error"

-- What dst, a buffer of n > 0 bytes, holds.
unfoldable pub copy_trunc : ℕ → CString → Bytes
copy_trunc n none = []
copy_trunc n (some s) = if leb n (length s) then snprintf_s n s else s

-- memset(e, 0, sizeof(*e)); 0 is the first value of each enum.
abbrev pub zero_event : Event
zero_event = record {
  seq = 0;
  layer = pack;
  phase = enter;
  name = [];
  detail = [];
  spans = [];
  code = pos 0;
  decision = [];
  short_circuit = false;
  used = false;
}

abbrev pub reset_event : Event
reset_event = record zero_event { code = negsuc 0 }
