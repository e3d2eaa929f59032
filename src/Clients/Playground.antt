-- ===== src/Clients/Playground.antt =====
-- playground/wasm/embind_api.c: the C functions that the page calls. The out parameters are given; free,
-- pd_free and pd_supervisor_close have no effect on the model.
pub mod Answers
pub mod Traced
pub mod Defaults
pub mod Reloads
pub mod Exported
use phronesis.Base.{
  ℕ, Bool, true, false, ◌||◌, Option, none, some, List, [], ltb, ◌==◌, length, if◌then◌else◌,
}
use phronesis.Base.CString.{Bytes, CString, codes, is_set, nonempty, or_empty, strcmp_eq}
use phronesis.Policy.Env.{Env}
use phronesis.Policy.Types.{Rc, ok, err_inval}
use phronesis.World.{World, Os}
use phronesis.Supervisor.Types.{Supervisor}
use phronesis.Supervisor.Open.{supervisor_open}
use phronesis.Pack.Files.{System}
use phronesis.Pack.Compile.{Janet}
use phronesis.Pack.Load.{Packs, shell_pack_reload}
use phronesis.Pack.Compose.{FieldReader, read_decision_fields}
use phronesis.Trace.Ring.{Trace, clear}
use phronesis.Trace.Ring.Calls.{Call, run}
use phronesis.Trace.Json.{Memory, Appended, trace_to_json}
use phronesis.Wire.Checks.{Codec, Emitted, check_seat, check_path, check_risk}
use phronesis.Wire.Shell.{ShellCodec, Served, check_shell, reload_shell_pack}
use phronesis.Wire.Message.{Written, written, not_written, endless}
use phronesis.Wire.Events.{seat_events, path_events, shell_events}
use phronesis.Wire.Message.{Writer}
use phronesis.Wire.Emit.{PolicyDecision, emit_decision, reply_message, with_denials}

-- What a check of the library works on.
pub record Held (V H : Type 0) : Type 0 where
  pub supervisor : Supervisor
  pub world : World
  pub packs : Packs V H

-- The state of the page's module.
pub record Page (V H : Type 0) : Type 0 where
  pub held : Held V H
  pub trace : Trace

-- -1; the length of a message that is left in *out_holder; or a check that does not end.
pub data PageAnswer : Type 0 where
  pd_failed : PageAnswer
  pd_answer : Bytes → PageAnswer
  pd_endless : PageAnswer

-- INT32_MAX
abbrev pub int32_max : ℕ
int32_max = 2147483647

unfoldable pub answer_of : Written → PageAnswer
answer_of not_written = pd_failed
answer_of endless = pd_endless
answer_of (written b) = if length b == 0 || ltb int32_max (length b) then pd_failed else pd_answer b

-- A function of the library: the message it writes, the calls of the trace that it makes, and what is
-- left.
abbrev pub Check : Type 0 → Type 0 → Type 0
Check V H = Bytes → Held V H → (Written × List Call) × Held V H

module _ {V H : Type 0} where
  unfoldable pub pd_check_common : Check V H → Bytes → Page V H → PageAnswer × Page V H
  unfolding answer_of
  pd_check_common fn body page =
      let ((m, calls), held) = fn body page.held in
      if length body == 0
      then (pd_failed, page)
      else (answer_of m, record { held = held; trace = run calls clear })

  unfoldable pub pd_clear_trace : Page V H → Page V H
  pd_clear_trace page = record page { trace = clear }

  unfoldable pub pd_take_trace_json : Memory → Page V H → Appended × Page V H
  unfolding pd_clear_trace
  pd_take_trace_json alloc page = (trace_to_json alloc page.trace, pd_clear_trace page)

unfoldable pub pd_read_decision : FieldReader → Bytes → Option (ℕ × ℕ)
pd_read_decision read buf = read_decision_fields read buf

-- setenv with overwrite 0
unfoldable pub set_default : Bytes → Bytes → Env → Env
set_default name value getenv n = elim (getenv n) [
  | some v ↦ some v
  | none ↦ if strcmp_eq n name then some value else none
]

abbrev pub pd_default_pack_spec : Bytes
pd_default_pack_spec = codes "/policy/shell.janet:/policy/packs.d"

unfoldable pub pd_defaults : Env → Env
unfolding set_default
pd_defaults getenv = set_default (codes "PHRONESIS_JANET_PACK") pd_default_pack_spec (
    set_default (codes "PHRONESIS_PACK_ROOT") (codes "/policy")
      (set_default (codes "PHRONESIS_DEV_PACK") (codes "1") getenv))

abbrev pub dir_or : Bytes → CString → CString
dir_or default dir = if is_set dir then dir else some default

-- The result NULL is `none`. The environment is left with its defaults.
unfoldable pub pd_supervisor_open :
    Os → Env → CString → CString → World → (Option Supervisor × Env) × World
unfolding pd_defaults supervisor_open
pd_supervisor_open os getenv state runtime w =
    let env = pd_defaults getenv in
    let ((rc, s), w') =
      supervisor_open os env (dir_or (codes "/pd-state") state)
        (dir_or (codes "/pd-runtime") runtime) w in
    ((elim rc [ ok ↦ s | _ ↦ none ], env), w')

-- The results 0, -1 and -2.
pub data Reloaded : Type 0 where
  pd_reloaded pd_path_invalid pd_load_failed : Reloaded

abbrev pub reloaded_of : Rc → Reloaded
reloaded_of ok = pd_reloaded
reloaded_of err_inval = pd_path_invalid
reloaded_of _ = pd_load_failed

-- The checks of a seat, a path and a risk, with the trace events that they make.
module _ {V H : Type 0} (os : Os) (codec : Codec) (mem : ℕ → Bool)
    (decisions : Writer PolicyDecision) where
  unfoldable pub of_emitted :
      (Env → Supervisor → Option Bytes → World → Emitted)
      → (Env → Option Bytes → List Call)
      → Check V H
  unfolding emit_decision
  of_emitted check events body h =
      let env = h.packs.getenv in
      let e = check env h.supervisor (some body) h.world in
      (
        (emit_decision mem decisions e.result e.agent none, events env (some body)),
        record h { supervisor = e.supervisor; world = e.world },
      )

  unfoldable pub pd_check_seat : Bytes → Page V H → PageAnswer × Page V H
  unfolding pd_check_common of_emitted check_seat seat_events
  pd_check_seat =
      pd_check_common (of_emitted (λ env. check_seat os env codec) (λ env. seat_events codec))

  unfoldable pub pd_check_path : Bytes → Page V H → PageAnswer × Page V H
  unfolding pd_check_common of_emitted check_path path_events
  pd_check_path =
      pd_check_common (of_emitted (λ env. check_path os env codec) (λ env. path_events env codec))

  unfoldable pub pd_check_risk : Bytes → Page V H → PageAnswer × Page V H
  unfolding pd_check_common of_emitted check_risk
  pd_check_risk = pd_check_common (of_emitted (λ env. check_risk env codec) (λ env body. []))

-- The functions that run packs or load them. The trace events of the packs and of their loading are a
-- parameter.
module _ {V H : Type 0} (os : Os) (sys : System) (janet : Janet V H) (shells : ShellCodec)
    (mem : ℕ → Bool) (decisions : Writer PolicyDecision)
    (events : Bytes → Held V H → List Call) where
  unfoldable pub of_served :
      (Supervisor → Option Bytes → World → Packs V H → Served V H)
      → (Bytes → Held V H → List Call)
      → Check V H
  unfolding reply_message
  of_served check traced body h =
      let r = check h.supervisor (some body) h.world h.packs in
      (
        (reply_message mem decisions r.reply, traced body h),
        record { supervisor = r.supervisor; world = r.world; packs = r.packs },
      )

  abbrev pub shell_traced : Bytes → Held V H → List Call
  shell_traced body h =
      shell_events os h.packs.getenv shells h.supervisor (some body) h.world (events body h)

  unfoldable pub pd_check_shell : Bytes → Page V H → PageAnswer × Page V H
  unfolding pd_check_common of_served check_shell shell_events
  pd_check_shell =
      pd_check_common
        (of_served (check_shell sys janet (with_denials mem decisions shells) os) shell_traced)

  unfoldable pub pd_reload_shell_pack : Bytes → Page V H → PageAnswer × Page V H
  unfolding pd_check_common of_served reload_shell_pack
  pd_reload_shell_pack =
      pd_check_common
        (of_served (reload_shell_pack sys janet (with_denials mem decisions shells)) events)

  -- The ring is not cleared.
  unfoldable pub pd_reload_pack_path : CString → Page V H → Reloaded × Page V H
  unfolding shell_pack_reload
  pd_reload_pack_path path page =
      let (rc, st) = shell_pack_reload sys janet path page.held.packs in
      if is_set path
      then (
        reloaded_of rc,
        record {
          held = record page.held { packs = st };
          trace = run (events (or_empty path) page.held) page.trace;
        },
      )
      else (pd_path_invalid, page)
