-- ===== src/Clients/Playground/Answers.antt =====
-- The answers that the page gets.
use phronesis.Base.{
  ℕ, ◌<◌, ◌≤◌, ◌≡◌, refl, sym, Bool, ◌||◌, Option, none, some, List, [], ◌∷◌, arith, ltb, ◌==◌,
  length, Bool-cases, inl, inr,
}
use mathlib.Core.Path.{subst}
use phronesis.Base.CString.{Bytes}
use phronesis.Policy.Types.{decision_ordinal, reason_ordinal}
use phronesis.Policy.Env.{Env}
use phronesis.World.{World, Os}
use phronesis.Supervisor.Types.{Supervisor}
use phronesis.Pack.Files.{System}
use phronesis.Pack.Compile.{Janet}
use phronesis.Pack.Compose.{FieldReader}
use phronesis.Trace.Ring.Calls.{Call}
use phronesis.Wire.Checks.{Codec, Emitted, open_in, check_seat, check_path, check_risk}
use phronesis.Wire.Shell.{ShellCheck, ShellCodec, check_shell}
use phronesis.Wire.Shell.ByPacks.{ReadsAllow, IsAllowed}
use phronesis.Wire.Shell.Allowed.{check_shell-IsAllowed}
use phronesis.Wire.Message.{Written, written, not_written, endless}
use phronesis.Wire.Message.{Writer}
use phronesis.Wire.Emit.{PolicyDecision, emit_decision, with_denials}
use phronesis.Wire.Events.{seat_events, path_events}
use phronesis.Wire.Emit.Reads.{
  ReadsFields, emit_decision-ends, emit_decision_read, host_message_denies, reply_message_allows,
}
use phronesis.Wire.Emit.Decided.{check_shell-IsDecided}
use phronesis.Clients.Playground.{
  Held, Page, PageAnswer, pd_failed, pd_answer, pd_endless, int32_max, answer_of, Check,
  pd_check_common, pd_read_decision, of_emitted, of_served, shell_traced, pd_check_seat,
  pd_check_path, pd_check_risk, pd_check_shell,
}

answer_of-written :
    (m : Written) (b : Bytes)
    → answer_of m ≡ pd_answer b
    → (m ≡ written b) × (0 < length b) × (length b ≤ int32_max)
unfolding answer_of
answer_of-written not_written b h = absurd (ground arith)
answer_of-written endless b h = absurd (ground arith)
answer_of-written (written []) b h = absurd (ground arith)
answer_of-written (written (c ∷ a)) b h = (ground arith, ground arith, ground arith)

module _ {V H : Type 0} where
  pd_check_common_body :
      (fn : Check V H) (c : ℕ) (body : Bytes) (page : Page V H)
      → (pd_check_common fn (c ∷ body) page).0 ≡ answer_of (fn (c ∷ body) page.held).0.0
  unfolding pd_check_common
  pd_check_common_body fn c body page = ground arith

  -- An answer is the message that the function wrote; its length is at least 1 and fits an int.
  pub pd_check_common-answer :
      (fn : Check V H) (body : Bytes) (page : Page V H) (b : Bytes)
      → (pd_check_common fn body page).0 ≡ pd_answer b
      → ((fn body page.held).0.0 ≡ written b) × (0 < length b) × (length b ≤ int32_max)
  unfolding pd_check_common
  pd_check_common-answer fn [] page b h = absurd (ground arith)
  pd_check_common-answer fn (c ∷ body) page b h =
      answer_of-written (fn (c ∷ body) page.held).0.0 b (ground arith)

-- The page gets -1, or an answer in which it reads the decision and the code of the check's result.
abbrev pub Reads : FieldReader → PageAnswer → Emitted → Type 0
Reads read pd_failed e = Unit {0}
Reads read pd_endless e = ⊥
Reads read (pd_answer b) e =
    pd_read_decision read b
    ≡ some (decision_ordinal e.result.decision, reason_ordinal e.result.code)

module _ (mem : ℕ → Bool) (decisions : Writer PolicyDecision) (read : FieldReader)
    (fields : ReadsFields decisions read) where
  message_read :
      (e : Emitted) (m : Written)
      → emit_decision mem decisions e.result e.agent none ≡ m
      → Reads read (answer_of m) e
  unfolding answer_of pd_read_decision
  message_read e not_written h = tt
  message_read e endless h = emit_decision-ends mem decisions e.result e.agent none h
  message_read e (written b) h = elim (Bool-cases (length b == 0 || ltb int32_max (length b))) [
    | inl t ↦ rw t tt
    | inr t ↦ rw t (emit_decision_read mem decisions read fields e.result e.agent none b h)
  ]

module _ {V H : Type 0} (os : Os) (codec : Codec) (mem : ℕ → Bool)
    (decisions : Writer PolicyDecision) (read : FieldReader)
    (fields : ReadsFields decisions read) where
  emitted_read :
      (check : Env → Supervisor → Option Bytes → World → Emitted)
      (events : Env → Option Bytes → List Call) (body : Bytes) (page : Page V H)
      → let h = page.held in
        Reads read
          (pd_check_common (of_emitted os codec mem decisions check events) body page).0
          (check h.packs.getenv h.supervisor (some body) h.world)
  unfolding of_emitted pd_check_common
  emitted_read check events [] page = tt
  emitted_read check events (c ∷ body) page =
      let h = page.held in
      let e = check h.packs.getenv h.supervisor (some (c ∷ body)) h.world in
      let fn = of_emitted os codec mem decisions check events in
      subst (λ (a : PageAnswer). Reads read a e) (sym (pd_check_common_body fn c body page))
        (message_read mem decisions read fields e
          (emit_decision mem decisions e.result e.agent none) refl)

  -- A check of a seat, a path or a risk ends, and the page gets -1, or an answer in which it reads the
  -- decision and the reason code of the library's check on that body, in the state that the page holds.
  -- The codec reads the fields that it has written.
  pub pd_read_decision-checks :
      (body : Bytes) (page : Page V H)
      → let h = page.held in
        let env = h.packs.getenv in
        Reads read
          (pd_check_seat os codec mem decisions body page).0
          (check_seat os env codec h.supervisor (some body) h.world)
        × Reads read
            (pd_check_path os codec mem decisions body page).0
            (check_path os env codec h.supervisor (some body) h.world)
        × Reads read
            (pd_check_risk os codec mem decisions body page).0
            (check_risk env codec h.supervisor (some body) h.world)
  unfolding pd_check_seat pd_check_path pd_check_risk
  pd_read_decision-checks body page = (
    emitted_read (λ env. check_seat os env codec) (λ env. seat_events codec) body page,
    emitted_read (λ env. check_path os env codec) (λ env. path_events env codec) body page,
    emitted_read (λ env. check_risk env codec) (λ env body. []) body page,
  )

module _ {V H : Type 0} (os : Os) (sys : System) (janet : Janet V H) (shells : ShellCodec)
    (mem : ℕ → Bool) (decisions : Writer PolicyDecision) (events : Bytes → Held V H → List Call)
    (fields : ReadsFields decisions shells.packs.read_fields) where
  -- A shell check of the page whose answer reads as allow was on a message that decodes to a command
  -- which is allowed: its directory is contained in the workspace of its agent and not sensitive, and
  -- the packs that check commands, of which there is one at least, each return allow if the command
  -- has a word. The codec reads the fields that it has written.
  pub pd_check_shell-IsAllowed :
      (body : Bytes) (page : Page V H) (b : Bytes)
      → (pd_check_shell os sys janet shells mem decisions events body page).0 ≡ pd_answer b
      → ReadsAllow shells.packs b
      → (sc : ShellCheck) × (open_in shells.read_shell (some body) ≡ some sc)
        × IsAllowed sys janet
            (with_denials mem decisions shells).packs
            os
            page.held.supervisor
            sc
            page.held.world
            page.held.packs
  unfolding pd_check_shell of_served
  pd_check_shell-IsAllowed body page b a r =
      let h = page.held in
      let library = with_denials mem decisions shells in
      let reply =
        (check_shell sys janet library os h.supervisor (some body) h.world h.packs).reply in
      check_shell-IsAllowed sys janet library
        (host_message_denies mem decisions shells.packs fields) os h.supervisor (some body) h.world
        h.packs
        (reply_message_allows mem decisions library.packs fields reply b
          (check_shell-IsDecided sys janet library os h.supervisor (some body) h.world h.packs)
          (pd_check_common-answer
            (of_served os sys janet shells mem decisions events (check_shell sys janet library os)
              (shell_traced os sys janet shells mem decisions events))
            body page b a).0
          r)
