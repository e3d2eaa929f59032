-- ===== src/Trace/Host.antt =====
-- The functions that a policy pack calls: layer_from_kw to cfun_trace_commit of policy_trace.c.
use phronesis.Base.{
  ℕ, Bool, false, ◌&&◌, not, Option, none, some, List, [], leb, length, get_elem?, if◌then◌else◌,
}
use phronesis.Base.Int.{ℤ, negsuc}
use phronesis.Base.CString.{Bytes, CString, codes, strcmp_eq}
use phronesis.Trace.Event.{
  Layer, Phase, pack, host, capnp, enter, gate, matched, skip, decide, error,
}
use phronesis.Trace.Ring.{
  Trace, begin, span_argv, set_code, set_decision, set_short_circuit, commit, trace_event,
}

unfoldable pub layer_from_kw : CString → Layer
unfolding strcmp_eq
layer_from_kw none = host
layer_from_kw (some s) =
    if strcmp_eq s (codes "pack") then pack else if strcmp_eq s (codes "capnp") then capnp else host

unfoldable pub phase_from_kw : CString → Phase
unfolding strcmp_eq
phase_from_kw none = enter
phase_from_kw (some s) =
    if strcmp_eq s (codes "gate")
    then gate
    else if strcmp_eq s (codes "match")
    then matched
    else if strcmp_eq s (codes "skip")
    then skip
    else if strcmp_eq s (codes "decide")
    then decide
    else if strcmp_eq s (codes "error")
    then error
    else enter

-- What the functions ask of a Janet value: the bytes of a string, symbol or keyword, the integer
-- that janet_getinteger reads (none: it panics), whether it is nil, and whether it is true.
pub record JanetApi (V : Type 0) : Type 0 where
  pub text : V → Option Bytes
  pub integer : V → Option ℤ
  pub is_nil : V → Bool
  pub truthy : V → Bool

module _ {V : Type 0} (api : JanetApi V) where
  unfoldable pub janet_cstr : V → Bytes
  janet_cstr v = elim (api.text v) [ none ↦ [] | some s ↦ s ]

  -- argv[i], "" behind the last argument
  unfoldable pub cstr_at : List V → ℕ → Bytes
  unfolding janet_cstr
  cstr_at argv i = elim (get_elem? argv i) [ none ↦ [] | some v ↦ janet_cstr v ]

  -- argc > i && !janet_checktype(argv[i], JANET_NIL)
  unfoldable pub present : List V → ℕ → Option V
  present argv i = elim (get_elem? argv i) [
    | none ↦ none
    | some v ↦ if api.is_nil v then none else some v
  ]

  -- The integer of a present argument, if it is one; `none` is a panic.
  unfoldable pub integer_at : Option V → Option (Option ℤ)
  integer_at none = some none
  integer_at (some v) = elim (api.integer v) [ none ↦ none | some z ↦ some (some z) ]

  unfoldable pub decision_at : Option V → CString
  unfolding janet_cstr
  decision_at none = none
  decision_at (some v) = some (janet_cstr v)

  abbrev pub arity : List V → ℕ → ℕ → Bool
  arity argv least most = leb least (length argv) && leb (length argv) most

  -- A panic leaves the trace as it is and is `none`.
  unfoldable pub cfun_trace_event : List V → Trace → Option Trace
  unfolding cstr_at present integer_at decision_at layer_from_kw phase_from_kw
  cfun_trace_event argv t =
      if not (arity argv 3 7) then none else elim (integer_at (present argv 4)) [
        | none ↦ none
        | some code ↦ some (
            trace_event (layer_from_kw (some (cstr_at argv 0)))
              (phase_from_kw (some (cstr_at argv 1))) (some (cstr_at argv 2))
              (some (cstr_at argv 3)) (elim code [ none ↦ negsuc 0 | some z ↦ z ])
              (decision_at (present argv 5))
              (elim (present argv 6) [ none ↦ false | some v ↦ api.truthy v ]) t)
      ]

  unfoldable pub cfun_trace_begin : List V → Trace → Option Trace
  unfolding cstr_at layer_from_kw phase_from_kw
  cfun_trace_begin argv t =
      if not (arity argv 3 4)
      then none
      else some (
          begin (layer_from_kw (some (cstr_at argv 0))) (phase_from_kw (some (cstr_at argv 1)))
            (some (cstr_at argv 2)) (some (cstr_at argv 3)) t)

  unfoldable pub cfun_trace_span_argv : List V → Trace → Option Trace
  unfolding cstr_at
  cfun_trace_span_argv argv t = if not (arity argv 2 2) then none else elim (get_elem? argv 0) [
    | none ↦ none
    | some v ↦ elim (api.integer v) [
      | none ↦ none
      | some index ↦ some (span_argv index (some (cstr_at argv 1)) t)
    ]
  ]

  unfoldable pub cfun_trace_commit : List V → Trace → Option Trace
  unfolding present integer_at decision_at
  cfun_trace_commit argv t =
      if not (arity argv 0 3) then none else elim (integer_at (present argv 0)) [
        | none ↦ none
        | some code ↦
            let t1 : Trace = elim code [ none ↦ t | some z ↦ set_code z t ] in
            let t2 : Trace = elim (present argv 1) [
              | none ↦ t1
              | some v ↦ set_decision (decision_at (some v)) t1
            ] in
            let t3 : Trace = elim (present argv 2) [
              | none ↦ t2
              | some v ↦ set_short_circuit (api.truthy v) t2
            ] in
            some (commit t3)
      ]
