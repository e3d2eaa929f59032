-- ===== src/Tests/OnTrace.antt =====
-- A few calls of the trace, and their export.
use phronesis.Base.{
  ℕ, ◌^◌, ◌+◌, ◌*◌, ◌≡◌, ◌≤◌, ◌<◌, ◌⊎◌, refl, true, some, none, List, [], ◌∷◌, arith,
}
use phronesis.Base.Int.{pos, negsuc}
use phronesis.Base.CString.{codes}
use phronesis.Trace.Event.{host, pack, enter, decide}
use phronesis.Trace.Ring.{clear}
use phronesis.Trace.Ring.Calls.{
  Call, begin_call, span_call, commit_call, event_call, code_call, run, log_run, no_log, log_of,
}
use phronesis.Trace.Ring.Calls.Logged.{log_of-run}
use phronesis.Trace.Json.{size32, double_until}
use phronesis.Trace.Json.Growth.{double_until-ends}

abbrev calls : List Call
calls =
    begin_call host enter (some (codes "checkShell")) none
    ∷ span_call (pos 0) (some (codes "runner"))
    ∷ commit_call
    ∷ code_call (pos 3)
    ∷ event_call pack decide (some (codes "a\"b")) none (negsuc 0) (some (codes "deny")) true
    ∷ []

log_of-run_example : log_of (run calls clear) ≡ log_run calls no_log
log_of-run_example = log_of-run calls

double_until-ends_example :
    (c : ℕ) × (double_until size32 6 4096 100000 ≡ some c)
    × (100000 ≤ c)
    × ((c ≡ 4096) ⊎ (c < 2 * 100000))
double_until-ends_example = double_until-ends size32 5 4096 100000 (omega arith) (omega arith)

-- Above half of SIZE_MAX + 1 the capacity wraps to 0, and the loop does not end.
double_until_wraps : double_until size32 65 4096 (2 ^ 31 + 1) ≡ none
unfolding double_until
double_until_wraps = refl
