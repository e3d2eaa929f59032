-- ===== src/Trace/Json/Text.antt =====
-- What pd_trace_to_json returns.
use phronesis.Base.{
  ℕ, zero, suc, ◌+◌, ◌%◌, ◌≤◌, ◌<◌, ◌≡◌, refl, ap, sym, true, List, [], ◌∷◌, ◌++◌, arith, ◌==◌,
  length, length-append, append-nil, if◌then◌else◌,
}
use mathlib.Core.Path.{subst}
use phronesis.Base.CString.{Bytes, codes, snprintf_s}
use phronesis.Trace.Event.{Event}
use phronesis.Trace.Ring.{Trace, visit, event_at, exported, clear}
use phronesis.Trace.Ring.Valid.{IsRing}
use phronesis.Trace.Ring.Calls.{Call, Log, run, log_run, no_log}
use phronesis.Trace.Ring.Calls.Logged.{log_of-run, run-IsRing, clear-IsRing}
use phronesis.Trace.Json.{
  Memory, size_half, Buf, Appended, appended, failed, endless, ◌then_do◌, no_buf, json_append,
  json_escape_append, escape_out, Piece, lit, esc, fmt, append_piece, append_pieces, event_pieces,
  append_events, trace_to_json,
}
use phronesis.Trace.Json.Growth.{
  size_half_bounds, Fits, Appends, then_do-Appends, json_append-Appends,
}

unfoldable pub escaped_text : Bytes → Bytes
unfolding escape_out
escaped_text [] = []
escaped_text (c ∷ s) = escape_out c ++ escaped_text s

unfoldable pub piece_text : Piece → Bytes
unfolding escaped_text
piece_text (lit s) = s
piece_text (esc s) = escaped_text s
piece_text (fmt s) = snprintf_s 128 s

unfoldable pub pieces_text : List Piece → Bytes
unfolding piece_text
pieces_text [] = []
pieces_text (p ∷ ps) = piece_text p ++ pieces_text ps

-- The objects of events, with a comma before each but the first of all.
unfoldable pub events_text : ℕ → List Event → Bytes
unfolding pieces_text event_pieces
events_text i [] = []
events_text i (e ∷ es) =
    pieces_text ((if i == 0 then [] else lit (codes ",") ∷ []) ++ event_pieces e)
    ++ events_text (suc i) es

-- The JSON array of events.
unfoldable pub json_text : List Event → Bytes
unfolding events_text
json_text es = codes "[" ++ (events_text 0 es ++ codes "]")

exported_used : (t : Trace) → IsRing t → (j : ℕ) → j < t.count → (event_at t j).used ≡ true
exported_used t v j h = ground (arith, v.in_use j, v.in_use ((t.head + j) % 64))

module _ (alloc : Memory) where
  -- Nothing is appended by an appender that has nothing left.
  unchanged : (b : Buf) → Fits b → Appends alloc b [] (appended b)
  unchanged b f = (sym (append-nil b.text), f)

  json_escape_append-Appends :
      (s : Bytes) (b : Buf)
      → Fits b
      → length b.text + length (escaped_text s) + 1 ≤ size_half alloc.width
      → Appends alloc b (escaped_text s) (json_escape_append alloc s b)
  unfolding json_escape_append escaped_text
  json_escape_append-Appends [] b f h = unchanged b f
  json_escape_append-Appends (c ∷ s) b f h =
      let l = length-append (escape_out c) (escaped_text s) in
      then_do-Appends alloc (json_append alloc (escape_out c) b) (json_escape_append alloc s) b
        (escape_out c) (escaped_text s)
        (json_append-Appends alloc (escape_out c) b (omega (arith, h, l)))
        (λ b' e f'.
          json_escape_append-Appends s b' f'
            (omega (arith, h, l, ap length e, length-append b.text (escape_out c))))

  append_piece-Appends :
      (p : Piece) (b : Buf)
      → Fits b
      → length b.text + length (piece_text p) + 1 ≤ size_half alloc.width
      → Appends alloc b (piece_text p) (append_piece alloc p b)
  unfolding append_piece piece_text
  append_piece-Appends (lit s) b f h = json_append-Appends alloc s b h
  append_piece-Appends (esc s) b f h = json_escape_append-Appends s b f h
  append_piece-Appends (fmt s) b f h = json_append-Appends alloc (snprintf_s 128 s) b h

  append_pieces-Appends :
      (ps : List Piece) (b : Buf)
      → Fits b
      → length b.text + length (pieces_text ps) + 1 ≤ size_half alloc.width
      → Appends alloc b (pieces_text ps) (append_pieces alloc ps b)
  unfolding append_pieces pieces_text
  append_pieces-Appends [] b f h = unchanged b f
  append_pieces-Appends (p ∷ ps) b f h =
      let l = length-append (piece_text p) (pieces_text ps) in
      then_do-Appends alloc (append_piece alloc p b) (append_pieces alloc ps) b (piece_text p)
        (pieces_text ps) (append_piece-Appends p b f (omega (arith, h, l)))
        (λ b' e f'.
          append_pieces-Appends ps b' f'
            (omega (arith, h, l, ap length e, length-append b.text (piece_text p))))

  visit_used :
      (at : ℕ → Event) (n i : ℕ)
      → (at i).used ≡ true
      → visit at i (suc n) ≡ at i ∷ visit at (suc i) n
  unfolding visit
  visit_used at n i w = rw w refl

  append_events-Appends :
      (at : ℕ → Event) (n i : ℕ) (b : Buf)
      → Fits b
      → ((j : ℕ) → i ≤ j → j < i + n → (at j).used ≡ true)
      → length b.text + length (events_text i (visit at i n)) + 1 ≤ size_half alloc.width
      → Appends alloc b (events_text i (visit at i n)) (append_events alloc at i n b)
  unfolding append_events events_text visit
  append_events-Appends at zero i b f u h = unchanged b f
  append_events-Appends at (suc n) i b f u h =
      let w = u i (omega arith) (omega arith) in
      let ps = (if i == 0 then [] else lit (codes ",") ∷ []) ++ event_pieces (at i) in
      let rest = events_text (suc i) (visit at (suc i) n) in
      let h' : length b.text + length (pieces_text ps ++ rest) + 1 ≤ size_half alloc.width =
        subst
          (λ (es : List Event).
            length b.text + length (events_text i es) + 1 ≤ size_half alloc.width)
          (visit_used at n i w) h in
      let l = length-append (pieces_text ps) rest in
      rw w (
        then_do-Appends alloc (append_pieces alloc ps b) (append_events alloc at (suc i) n) b
          (pieces_text ps) rest (append_pieces-Appends ps b f (omega (arith, h', l)))
          (λ b' e f'.
            append_events-Appends at n (suc i) b' f'
              (λ j p q. u j (omega (arith, p)) (omega (arith, q)))
              (omega (arith, h', l, ap length e, length-append b.text (pieces_text ps)))))

  trace_to_json-Appends :
      (t : Trace)
      → IsRing t
      → length (json_text (exported t)) < size_half alloc.width
      → Appends alloc no_buf (json_text (exported t)) (trace_to_json alloc t)
  unfolding trace_to_json json_text exported
  trace_to_json-Appends t v h =
      let events = events_text 0 (visit (event_at t) 0 t.count) in
      let l = length-append events (codes "]") in
      then_do-Appends alloc
        (json_append alloc (codes "[") no_buf then_do (append_events alloc (event_at t) 0 t.count))
        (json_append alloc (codes "]")) no_buf (codes "[" ++ events) (codes "]")
        (then_do-Appends alloc (json_append alloc (codes "[") no_buf)
          (append_events alloc (event_at t) 0 t.count) no_buf (codes "[") events
          (json_append-Appends alloc (codes "[") no_buf
            (omega (arith, size_half_bounds alloc.width)))
          (λ b e f.
            append_events-Appends (event_at t) t.count 0 b f
              (λ j p q. exported_used t v j (omega (arith, q))) (omega (arith, h, l, ap length e))))
        (λ b e f. json_append-Appends alloc (codes "]") b (omega (arith, h, l, ap length e)))

  -- The text that a successful export returns.
  abbrev pub Exports : Bytes → Appended → Type 0
  Exports s (appended b) = b.text ≡ s
  Exports s failed = ((n k : ℕ) → alloc.realloc n k ≡ true) → ⊥
  Exports s endless = ⊥

  exports : (s : Bytes) (r : Appended) → Appends alloc no_buf s r → Exports s r
  exports s (appended b) (e, f) = e
  exports s failed h = h
  exports s endless h = h

  -- After any calls of the trace, the export ends: with the JSON text of the log's events, oldest
  -- first, or with -1 where some realloc fails; if that text is shorter than half of SIZE_MAX + 1.
  pub trace_to_json-run :
      (cs : List Call)
      → length (json_text (log_run cs no_log).log) < size_half alloc.width
      → Exports (json_text (log_run cs no_log).log) (trace_to_json alloc (run cs clear))
  trace_to_json-run cs h =
      let e : exported (run cs clear) ≡ (log_run cs no_log).log =
        ap (λ (l : Log). l.log) (log_of-run cs) in
      subst
        (λ (es : List Event).
          length (json_text es) < size_half alloc.width
          → Exports (json_text es) (trace_to_json alloc (run cs clear)))
        e
        (λ m.
          exports (json_text (exported (run cs clear))) (trace_to_json alloc (run cs clear))
            (trace_to_json-Appends (run cs clear) (run-IsRing cs clear clear-IsRing) m))
        h
