-- ===== src/Trace/Ring/Calls.antt =====
-- Sequences of calls of the trace, on the ring and on the log it stands for.
pub mod Logged
use phronesis.Base.{
  ℕ, ◌≡◌, refl, ◌∙◌, ap, Bool, true, false, Option, none, some, List, [], ◌∷◌, arith, if◌then◌else◌,
  Bool-cases, inl, inr,
}
use phronesis.Base.Int.{ℤ, negsuc, is_negative}
use phronesis.Base.CString.{CString, is_set}
use phronesis.Trace.Event.{Event, Layer, Phase, decision_max, copy_trunc, reset_event}
use phronesis.Trace.Ring.{
  Trace, clear, begin, begun, next_seq, add_span, span_argv, set_code, set_decision,
  set_short_circuit, commit, trace_event, ring_push, on_pending, exported, visit,
}
use phronesis.Trace.Ring.Valid.{IsRing, ring_push-IsRing}
use phronesis.Trace.Ring.Refine.{log_append, stored, exported-ring_push}

-- A call of the interface in policy_trace.h.
pub data Call : Type 0 where
  clear_call : Call
  begin_call : (layer : Layer) (phase : Phase) (name detail : CString) → Call
  span_call : (index : ℤ) (role : CString) → Call
  code_call : (code : ℤ) → Call
  decision_call : (decision : CString) → Call
  short_circuit_call : (b : Bool) → Call
  commit_call : Call
  event_call :
      (layer : Layer) (phase : Phase) (name detail : CString) (code : ℤ) (decision : CString)
      (b : Bool)
      → Call

unfoldable pub call : Call → Trace → Trace
call clear_call t = clear
call (begin_call layer phase name detail) t = begin layer phase name detail t
call (span_call index role) t = span_argv index role t
call (code_call code) t = set_code code t
call (decision_call decision) t = set_decision decision t
call (short_circuit_call b) t = set_short_circuit b t
call commit_call t = commit t
call (event_call layer phase name detail code decision b) t =
    trace_event layer phase name detail code decision b t

unfoldable pub run : List Call → Trace → Trace
run [] t = t
run (c ∷ cs) t = run cs (call c t)

-- What the trace promises: a log of at most ring_size events, and at most one event under construction.
pub record Log : Type 0 where
  pub log : List Event
  pub seq : ℕ
  pub pending : Option Event

abbrev pub no_log : Log
no_log = record { log = []; seq = 0; pending = none }

abbrev pub change : (Event → Event) → Log → Log
change f l = record l { pending = elim l.pending [ none ↦ none | some e ↦ some (f e) ] }

unfoldable pub log_call : Call → Log → Log
log_call clear_call l = no_log
log_call (begin_call layer phase name detail) l = record l {
  seq = next_seq l.seq;
  pending = some (begun (next_seq l.seq) layer phase name detail);
}
log_call (span_call index role) l = change (add_span index role) l
log_call (code_call code) l = change (λ e. record e { code = code }) l
log_call (decision_call decision) l =
    change (λ e. record e { decision = copy_trunc decision_max decision }) l
log_call (short_circuit_call b) l = change (λ e. record e { short_circuit = b }) l
log_call commit_call l = elim l.pending [
  | none ↦ l
  | some e ↦ record l { log = log_append l.log (stored e); pending = none }
]
log_call (event_call layer phase name detail code decision b) l = record l {
  log = log_append l.log (record (begun (next_seq l.seq) layer phase name detail) {
    code = if is_negative code then negsuc 0 else code;
    decision = if is_set decision then copy_trunc decision_max decision else [];
    short_circuit = b;
    used = true;
  });
  seq = next_seq l.seq;
  pending = none;
}

unfoldable pub log_run : List Call → Log → Log
log_run [] l = l
log_run (c ∷ cs) l = log_run cs (log_call c l)

-- The log that a state of the ring stands for.
abbrev pub log_of : Trace → Log
log_of t = record {
  log = exported t;
  seq = t.seq;
  pending = if t.pending_open then some t.pending else none;
}
