-- ===== src/Trace/Ring/Calls/Logged.antt =====
-- The ring as a bounded log, over any sequence of calls.
use phronesis.Base.{
  ℕ, ◌≡◌, refl, ◌∙◌, ap, Bool, true, false, none, List, [], ◌∷◌, arith, if◌then◌else◌, Bool-cases,
  inl, inr,
}
use phronesis.Base.Int.{ℤ, negsuc, is_negative}
use phronesis.Base.CString.{CString, is_set}
use phronesis.Trace.Event.{Event, Layer, Phase, decision_max, copy_trunc, reset_event}
use phronesis.Trace.Ring.{
  Trace, clear, begin, begun, next_seq, add_span, span_argv, set_code, set_decision,
  set_short_circuit, commit, trace_event, ring_push, on_pending, exported, visit,
}
use phronesis.Trace.Ring.Valid.{IsRing, ring_push-IsRing}
use phronesis.Trace.Ring.Refine.{log_append, stored, exported-ring_push}
use phronesis.Trace.Ring.Calls.{
  Call, clear_call, begin_call, span_call, code_call, decision_call, short_circuit_call,
  commit_call, event_call, call, run, no_log, change, log_call, log_run, log_of,
}

pub clear-IsRing : IsRing clear
clear-IsRing = record {
  size = refl;
  count_in = omega arith;
  head_in = omega arith;
  filling = λ h. refl;
  in_use = λ i h. absurd (omega (arith, h));
}

log_of-clear : log_of clear ≡ no_log
unfolding exported visit
log_of-clear = refl

-- The same state with another event under construction.
abbrev pending_state : Trace → ℕ → Event → Bool → Trace
pending_state t seq e b = record t { seq = seq; pending = e; pending_open = b }

module _ (t : Trace) (v : IsRing t) where
  pending-IsRing : (seq : ℕ) (e : Event) (b : Bool) → IsRing (pending_state t seq e b)
  pending-IsRing seq e b = record {
    size = v.size;
    count_in = v.count_in;
    head_in = v.head_in;
    filling = v.filling;
    in_use = v.in_use;
  }

  change-IsRing :
      (f : Event → Event) (seq : ℕ) (e : Event) (b : Bool)
      → IsRing (on_pending f (pending_state t seq e b))
  change-IsRing f seq e true = pending-IsRing seq (f e) true
  change-IsRing f seq e false = pending-IsRing seq e false

  log_of-change :
      (f : Event → Event) (seq : ℕ) (e : Event) (b : Bool)
      → log_of (on_pending f (pending_state t seq e b))
        ≡ change f (log_of (pending_state t seq e b))
  unfolding exported
  log_of-change f seq e true = refl
  log_of-change f seq e false = refl

pushed-IsRing :
    (t : Trace) (e : Event)
    → IsRing t
    → IsRing (pending_state (ring_push t e) t.seq reset_event false)
unfolding ring_push
pushed-IsRing t e v =
    pending-IsRing (ring_push t e) (ring_push-IsRing t e v) t.seq reset_event false

exported_pending :
    (t : Trace) (seq : ℕ) (e : Event) (b : Bool) → exported (pending_state t seq e b) ≡ exported t
unfolding exported
exported_pending t seq e b = refl

log_of-pushed :
    (t : Trace) (e : Event) (v : IsRing t)
    → log_of (pending_state (ring_push t e) t.seq reset_event false)
      ≡ record { log = log_append (exported t) (stored e); seq = t.seq; pending = none }
log_of-pushed t e v =
    ap (λ (l : List Event). record no_log { log = l; seq = t.seq })
      (exported_pending (ring_push t e) t.seq reset_event false ∙ exported-ring_push t e v)

commit-IsRing : (t : Trace) (b : Bool) → IsRing t → IsRing (commit (record t { pending_open = b }))
unfolding commit ring_push
commit-IsRing t true v =
    pushed-IsRing (record t { pending_open = true }) t.pending
      (pending-IsRing t v t.seq t.pending true)
commit-IsRing t false v = pending-IsRing t v t.seq t.pending false

log_of-commit :
    (t : Trace) (b : Bool)
    → IsRing t
    → log_of (commit (record t { pending_open = b }))
      ≡ log_call commit_call (log_of (record t { pending_open = b }))
unfolding commit log_call ring_push
log_of-commit t true v =
    log_of-pushed (record t { pending_open = true }) t.pending
      (pending-IsRing t v t.seq t.pending true)
log_of-commit t false v = refl

-- What trace_event commits.
made : ℕ → Layer → Phase → CString → CString → ℤ → CString → Bool → Event
made seq layer phase name detail code decision b = record (begun seq layer phase name detail) {
  code = if is_negative code then negsuc 0 else code;
  decision = if is_set decision then copy_trunc decision_max decision else [];
  short_circuit = b;
}

trace_event_lem :
    (layer : Layer) (phase : Phase) (name detail : CString) (code : ℤ) (decision : CString)
    (b : Bool) (t : Trace)
    → trace_event layer phase name detail code decision b t
      ≡ commit (
          pending_state t
            (next_seq t.seq)
            (made (next_seq t.seq) layer phase name detail code decision b)
            true)
unfolding trace_event begin set_code set_decision set_short_circuit made
trace_event_lem layer phase name detail code decision b t = elim (Bool-cases (is_negative code)) [
  | inl h ↦ elim (Bool-cases (is_set decision)) [ inl d ↦ rw (h, d) refl | inr d ↦ rw (h, d) refl ]
  | inr h ↦ elim (Bool-cases (is_set decision)) [ inl d ↦ rw (h, d) refl | inr d ↦ rw (h, d) refl ]
]

-- The ring's invariant is kept by every call.
pub call-IsRing : (c : Call) (t : Trace) → IsRing t → IsRing (call c t)
unfolding call begin span_argv set_code set_decision set_short_circuit
call-IsRing clear_call t v = clear-IsRing
call-IsRing (begin_call layer phase name detail) t v =
    pending-IsRing t v (next_seq t.seq) (begun (next_seq t.seq) layer phase name detail) true
call-IsRing (span_call index role) t v =
    change-IsRing t v (add_span index role) t.seq t.pending t.pending_open
call-IsRing (code_call code) t v =
    change-IsRing t v (λ e. record e { code = code }) t.seq t.pending t.pending_open
call-IsRing (decision_call decision) t v =
    change-IsRing t v (λ e. record e { decision = copy_trunc decision_max decision }) t.seq
      t.pending t.pending_open
call-IsRing (short_circuit_call b) t v =
    change-IsRing t v (λ e. record e { short_circuit = b }) t.seq t.pending t.pending_open
call-IsRing commit_call t v = commit-IsRing t t.pending_open v
call-IsRing (event_call layer phase name detail code decision b) t v =
    let e = made (next_seq t.seq) layer phase name detail code decision b in
    rw (trace_event_lem layer phase name detail code decision b t) (
      commit-IsRing (pending_state t (next_seq t.seq) e true) true
        (pending-IsRing t v (next_seq t.seq) e true))

pub log_of-call : (c : Call) (t : Trace) → IsRing t → log_of (call c t) ≡ log_call c (log_of t)
unfolding call log_call begin span_argv set_code set_decision set_short_circuit made exported
log_of-call clear_call t v = log_of-clear
log_of-call (begin_call layer phase name detail) t v = refl
log_of-call (span_call index role) t v =
    log_of-change t v (add_span index role) t.seq t.pending t.pending_open
log_of-call (code_call code) t v =
    log_of-change t v (λ e. record e { code = code }) t.seq t.pending t.pending_open
log_of-call (decision_call decision) t v =
    log_of-change t v (λ e. record e { decision = copy_trunc decision_max decision }) t.seq
      t.pending t.pending_open
log_of-call (short_circuit_call b) t v =
    log_of-change t v (λ e. record e { short_circuit = b }) t.seq t.pending t.pending_open
log_of-call commit_call t v = log_of-commit t t.pending_open v
log_of-call (event_call layer phase name detail code decision b) t v =
    let e = made (next_seq t.seq) layer phase name detail code decision b in
    ap log_of (trace_event_lem layer phase name detail code decision b t)
    ∙ log_of-commit (pending_state t (next_seq t.seq) e true) true
        (pending-IsRing t v (next_seq t.seq) e true)

log_of-run_from :
    (cs : List Call) (t : Trace) → IsRing t → log_of (run cs t) ≡ log_run cs (log_of t)
unfolding run log_run
log_of-run_from [] t v = refl
log_of-run_from (c ∷ cs) t v =
    log_of-run_from cs (call c t) (call-IsRing c t v) ∙ ap (log_run cs) (log_of-call c t v)

pub run-IsRing : (cs : List Call) (t : Trace) → IsRing t → IsRing (run cs t)
unfolding run
run-IsRing [] t v = v
run-IsRing (c ∷ cs) t v = run-IsRing cs (call c t) (call-IsRing c t v)

-- The ring is a bounded log: from a cleared trace, whatever the calls, the events exported, the
-- sequence number and the event under construction are those of a log that appends each committed
-- event and, at 64 events, drops the oldest.
pub log_of-run : (cs : List Call) → log_of (run cs clear) ≡ log_run cs no_log
log_of-run cs = log_of-run_from cs clear clear-IsRing ∙ ap (log_run cs) log_of-clear
