-- ===== src/Trace/Ring.antt =====
-- The ring and the event under construction: pd_trace_clear to pd_trace_event of policy_trace.c.
pub mod Valid
pub mod Refine
pub mod Calls
use phronesis.Base.{
  ℕ, zero, suc, ◌+◌, ◌%◌, ◌^◌, Bool, true, false, ◌||◌, not, Option, none, some, List, [], ◌∷◌,
  ◌++◌, ltb, leb, ◌==◌, length, set, if◌then◌else◌,
}
use phronesis.Base.Int.{ℤ, is_negative}
use phronesis.Base.CString.{Bytes, CString, is_set, or_empty}
use phronesis.Trace.Event.{
  Event, Layer, Phase, Span, ring_size, spans_max, name_max, detail_max, role_max, decision_max,
  copy_trunc, zero_event, reset_event,
}

-- The static variables g_ring, g_head, g_count, g_seq, g_pending and g_pending_open.
pub record Trace : Type 0 where
  pub ring : List Event
  pub head : ℕ
  pub count : ℕ
  pub seq : ℕ
  pub pending : Event
  pub pending_open : Bool

abbrev pub zero_events : ℕ → List Event
zero_events zero = []
zero_events (suc n) = zero_event ∷ zero_events n

-- g_ring[i]
abbrev pub event_or : List Event → ℕ → Event
event_or [] i = zero_event
event_or (e ∷ r) zero = e
event_or (e ∷ r) (suc i) = event_or r i

unfoldable pub ring_push : Trace → Event → Trace
ring_push t src = record t {
  ring = set t.ring t.head (record src { used = true });
  head = (t.head + 1) % ring_size;
  count = if ltb t.count ring_size then t.count + 1 else t.count;
}

abbrev pub clear : Trace
clear = record {
  ring = zero_events ring_size;
  head = 0;
  count = 0;
  seq = 0;
  pending = reset_event;
  pending_open = false;
}

-- ++g_seq is a uint32_t.
unfoldable pub next_seq : ℕ → ℕ
next_seq seq = (seq + 1) % 2 ^ 32

abbrev pub begun : ℕ → Layer → Phase → CString → CString → Event
begun seq layer phase name detail = record reset_event {
  seq = seq;
  layer = layer;
  phase = phase;
  name = copy_trunc name_max name;
  detail = copy_trunc detail_max detail;
}

unfoldable pub begin : Layer → Phase → CString → CString → Trace → Trace
begin layer phase name detail t = record t {
  seq = next_seq t.seq;
  pending = begun (next_seq t.seq) layer phase name detail;
  pending_open = true;
}

-- A change of the pending event, if there is one.
abbrev pub on_pending : (Event → Event) → Trace → Trace
on_pending f t = if t.pending_open then record t { pending = f t.pending } else t

unfoldable pub add_span : ℤ → CString → Event → Event
add_span index role e = if leb spans_max (length e.spans) then e else record e {
  spans =
      e.spans ++ record { index = index; role = copy_trunc role_max (some (or_empty role)) } ∷ [];
}

unfoldable pub span_argv : ℤ → CString → Trace → Trace
span_argv index role t = on_pending (add_span index role) t

unfoldable pub set_code : ℤ → Trace → Trace
set_code code t = on_pending (λ e. record e { code = code }) t

unfoldable pub set_decision : CString → Trace → Trace
set_decision decision t =
    on_pending (λ e. record e { decision = copy_trunc decision_max decision }) t

unfoldable pub set_short_circuit : Bool → Trace → Trace
set_short_circuit b t = on_pending (λ e. record e { short_circuit = b }) t

unfoldable pub commit : Trace → Trace
unfolding ring_push
commit t =
    if t.pending_open
    then record (ring_push t t.pending) { pending = reset_event; pending_open = false }
    else t

unfoldable pub trace_event : Layer → Phase → CString → CString → ℤ → CString → Bool → Trace → Trace
unfolding begin set_code set_decision set_short_circuit commit
trace_event layer phase name detail code decision short_circuit t =
    let t1 = begin layer phase name detail t in
    let t2 = if is_negative code then t1 else set_code code t1 in
    let t3 = if is_set decision then set_decision decision t2 else t2 in
    commit (set_short_circuit short_circuit t3)

-- The loop of pd_trace_to_json over the events: `at` gives g_ring[idx] for i, from i on, n times.
unfoldable pub visit : (ℕ → Event) → ℕ → ℕ → List Event
visit at i zero = []
visit at i (suc n) = let rest = visit at (suc i) n in if (at i).used then at i ∷ rest else rest

-- idx, where start is g_head if the ring is full
abbrev pub event_index : Trace → ℕ → ℕ
event_index t i = if t.count == ring_size then (t.head + i) % ring_size else i

abbrev pub event_at : Trace → ℕ → Event
event_at t i = event_or t.ring (event_index t i)

-- The events that are exported, in their order.
unfoldable pub exported : Trace → List Event
unfolding visit
exported t = visit (event_at t) 0 t.count
