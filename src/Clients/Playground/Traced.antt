-- ===== src/Clients/Playground/Traced.antt =====
-- The trace of one check, as the page takes it.
use phronesis.Base.{◌<◌, ◌≡◌, ◌≢◌, refl, sym, [], ◌∷◌, arith, length}
use mathlib.Core.Path.{subst}
use phronesis.Base.CString.{Bytes}
use phronesis.Trace.Ring.{Trace, clear}
use phronesis.Trace.Ring.Calls.{run, log_run, no_log}
use phronesis.Trace.Json.{Memory, size_half, trace_to_json}
use phronesis.Trace.Json.Growth.{size_half_bounds}
use phronesis.Trace.Json.Text.{Exports, json_text, trace_to_json-run}
use phronesis.Clients.Playground.{Page, Check, pd_check_common, pd_clear_trace, pd_take_trace_json}

no_events : (alloc : Memory) → Exports alloc (json_text []) (trace_to_json alloc clear)
unfolding run log_run json_text
no_events alloc = trace_to_json-run alloc [] (omega (arith, size_half_bounds alloc.width))

module _ {V H : Type 0} (alloc : Memory) (fn : Check V H) where
  -- The page behind a check with a body, and the text of the events of that check.
  abbrev pub checked : Bytes → Page V H → Page V H
  checked body page = (pd_check_common fn body page).1

  abbrev pub check_text : Bytes → Page V H → Bytes
  check_text body page = json_text (log_run (fn body page.held).0.1 no_log).log

  checked_trace :
      (body : Bytes) (page : Page V H)
      → body ≢ []
      → (checked body page).trace ≡ run (fn body page.held).0.1 clear
  unfolding pd_check_common
  checked_trace [] page n = absurd (n refl)
  checked_trace (c ∷ body) page n = ground arith

  -- After a check with a body, whatever the trace held before, pd_take_trace_json ends: with the JSON
  -- text of the events of that check alone, or with NULL where some realloc fails; if that text is
  -- shorter than 2^31 bytes, where a size_t has 32 bits, or 2^63, where it has 64. Taking
  -- the trace once more gives the text of no event.
  pub pd_take_trace_json-check :
      (body : Bytes) (page : Page V H)
      → body ≢ []
      → length (check_text body page) < size_half alloc.width
      → Exports alloc (check_text body page) (pd_take_trace_json alloc (checked body page)).0
        × Exports alloc
            (json_text [])
            (pd_take_trace_json alloc (pd_take_trace_json alloc (checked body page)).1).0
  unfolding pd_take_trace_json pd_clear_trace
  pd_take_trace_json-check body page n h = (
    subst (λ (t : Trace). Exports alloc (check_text body page) (trace_to_json alloc t))
        (sym (checked_trace body page n)) (trace_to_json-run alloc (fn body page.held).0.1 h),
    no_events alloc,
  )
