-- ===== src/Supervisor/Runs/Rests.antt =====
-- An agent that does not run, in sequences of calls on the handle of supervisor.c.
use phronesis.Base.{
  ℕ, ◌≡◌, ◌≢◌, inl, inr, ap, sym, ◌∙◌, true, false, none, some, List, [], ◌∷◌, Bool-cases,
}
use phronesis.Base.Int.{ℤ}
use phronesis.Base.CString.{Bytes, CString}
use phronesis.Base.CString.Laws.{strcmp_eq_iff}
use phronesis.Policy.Env.{Env}
use phronesis.World.{World, Os}
use phronesis.Supervisor.Types.{Slot, Supervisor, slot_at, is_running}
use phronesis.Supervisor.Ids.{valid_id}
use phronesis.Supervisor.Slots.{find_mem}
use phronesis.Supervisor.Slots.Unique.{IsTable, find_slot-some}
use phronesis.Supervisor.Lifecycle.Table.{IsOwn}
use phronesis.Supervisor.Lifecycle.Acquire.{valid_agent}
use phronesis.Supervisor.Lifecycle.Start.{supervisor_start}
use phronesis.Supervisor.Lifecycle.Started.{
  started, runs_already, rejected, supervisor_start_outcome,
}
use phronesis.Supervisor.Lifecycle.Bind.{supervisor_bind}
use phronesis.Supervisor.Lifecycle.Bound.{supervisor_bind_outcome}
use phronesis.Supervisor.Lifecycle.Bound
use phronesis.Supervisor.Lifecycle.Stop.{supervisor_stop}
use phronesis.Supervisor.Lifecycle.Stopped.{IsStopped, supervisor_stop-IsStopped}
use phronesis.Supervisor.Open.{supervisor_open}
use phronesis.Supervisor.Runs.{
  HandleStep, start, bind, stop, status, admits, check, Steps, here, next,
}
use phronesis.Supervisor.Runs.Looks.{rests_but, status-Looked, require-Looked, check-Looked}
use phronesis.Supervisor.Runs.Stable.{HandleStep-Keeps, Steps-Keeps, find_mem-Steps}

-- The call is no start and no bind of the agent.
unfoldable pub SparesStep : Bytes → {s s' : Supervisor} → HandleStep s s' → Type 0
SparesStep id (start os agent_id mode workspace argv w) = agent_id ≢ some id
SparesStep id (bind os agent_id mode workspace pid w) = agent_id ≢ some id
SparesStep id _ = Unit

unfoldable pub Spares : Bytes → {s s' : Supervisor} → Steps s s' → Type 0
unfolding SparesStep
Spares id here = Unit
Spares id (next r x) = Spares id r × SparesStep id x

-- The slot i is one of the agent, and does not run.
record Rests (id : Bytes) (i : ℕ) (s : Supervisor) : Type 0 where
  used : (slot_at s i).in_use ≡ true
  named : (slot_at s i).id ≡ id
  resting : is_running (slot_at s i).state ≡ false

-- What changes another agent's slot only.
other_slot_idle :
    {id id' : Bytes} {i j : ℕ} {s s' : Supervisor}
    → IsOwn id' j s s'
    → id' ≢ id
    → Rests id i s
    → is_running (slot_at s' i).state ≡ false
other_slot_idle {id} {id'} {i} {j} {s} {s'} o d r =
    let other : i ≢ j = λ e.
      let used : (slot_at s j).in_use ≡ true = ap (λ k. (slot_at s k).in_use) (sym e) ∙ r.used in
      d (sym (o.slot.own used) ∙ (ap (λ k. (slot_at s k).id) (sym e) ∙ r.named)) in
    ap (λ (a : Slot). is_running a.state) (o.slot.others i other) ∙ r.resting

unchanged_idle :
    {id : Bytes} {i : ℕ} {s s' : Supervisor}
    → s' ≡ s
    → Rests id i s
    → is_running (slot_at s' i).state ≡ false
unchanged_idle {i = i} e r = ap (λ (t : Supervisor). is_running (slot_at t i).state) e ∙ r.resting

stopped_idle :
    {id id' : Bytes} {i : ℕ} {s s' : Supervisor}
    → IsStopped id' s s'
    → Rests id i s
    → is_running (slot_at s' i).state ≡ false
stopped_idle {i = i} {s} {s'} h r =
    rests_but s s' h.index h.own.slot.others (λ u q. h.not_running) i r.used r.resting

module _ (os : Os) (s : Supervisor) (t : IsTable s) {id : Bytes} {i : ℕ} (r : Rests id i s) where
  start_idle :
      (agent_id mode workspace : CString) (argv : List Bytes) (w : World)
      → agent_id ≢ some id
      → is_running (slot_at (supervisor_start os s agent_id mode workspace argv w).1 i).state
        ≡ false
  unfolding supervisor_start valid_agent valid_id
  start_idle agent_id mode workspace [] w d = r.resting
  start_idle none mode workspace (cmd ∷ argv) w d = r.resting
  start_idle (some id') mode workspace (cmd ∷ argv) w d =
      let ne : id' ≢ id = λ e. d (ap some e) in
      elim (supervisor_start_outcome os s id' mode workspace cmd argv w t) [
        | started h ↦ other_slot_idle h.own_slot ne r
        | runs_already e o h ↦ other_slot_idle o ne r
        | rejected n e ↦ unchanged_idle e r
      ]

  bind_idle :
      (agent_id mode workspace : CString) (pid : ℤ) (w : World)
      → agent_id ≢ some id
      → is_running (slot_at (supervisor_bind os s agent_id mode workspace pid w).1 i).state ≡ false
  unfolding supervisor_bind valid_agent valid_id
  bind_idle none mode workspace pid w d = r.resting
  bind_idle (some id') mode workspace pid w d =
      let ne : id' ≢ id = λ e. d (ap some e) in
      elim (supervisor_bind_outcome os s id' mode workspace pid w t) [
        | Bound.bound h ↦ other_slot_idle h.own_slot ne r
        | Bound.runs_already e o h f ↦ other_slot_idle o ne r
        | Bound.rejected n e ↦ unchanged_idle e r
      ]

  stop_idle :
      (agent_id : CString) (w : World)
      → is_running (slot_at (supervisor_stop os s agent_id w).1 i).state ≡ false
  unfolding supervisor_stop valid_id
  stop_idle none w = r.resting
  stop_idle (some id') w = elim (Bool-cases (valid_id (some id'))) [
    | inr e ↦ rw e r.resting
    | inl e ↦ elim (supervisor_stop-IsStopped os s id' w t e) [
      | inl h ↦ stopped_idle h.1 r
      | inr h ↦ unchanged_idle h.1 r
    ]
  ]

HandleStep-Rests :
    {s s' : Supervisor} {id : Bytes} {i : ℕ} (x : HandleStep s s')
    → IsTable s
    → Rests id i s
    → SparesStep id x
    → is_running (slot_at s' i).state ≡ false
unfolding SparesStep
HandleStep-Rests {s} (start os agent_id mode workspace argv w) t r d =
    start_idle os s t r agent_id mode workspace argv w d
HandleStep-Rests {s} (bind os agent_id mode workspace pid w) t r d =
    bind_idle os s t r agent_id mode workspace pid w d
HandleStep-Rests {s} (stop os agent_id w) t r d = stop_idle os s t r agent_id w
HandleStep-Rests {s} {i = i} (status os agent_id w) t r d =
    (status-Looked os s t agent_id w).rests i r.used r.resting
HandleStep-Rests {s} {i = i} (admits os agent_id w) t r d =
    (require-Looked os s t agent_id w).rests i r.used r.resting
HandleStep-Rests {s} {i = i} (check os getenv agent_id tool action path w) t r d =
    (check-Looked os s t getenv agent_id tool action path w).rests i r.used r.resting

Steps-Rests :
    {s s' : Supervisor} {id : Bytes} {i : ℕ} (x : Steps s s')
    → IsTable s
    → Rests id i s
    → Spares id x
    → Rests id i s'
unfolding Spares
Steps-Rests here t r d = r
Steps-Rests {i = i} (next before x) t r (d, d') =
    let k = Steps-Keeps t before in
    let q = Steps-Rests before t r d in
    let (used, named) = (HandleStep-Keeps k.table x).stays i q.used in
    record { used = used; named = named ∙ q.named; resting = HandleStep-Rests x k.table q d' }

-- Only a start or a bind in its name makes an agent run that has a slot and does not run: after
-- any other calls, in whatever worlds, from a table that the calls behind an opening have left,
-- the agent is in the same slot and does not run.
pub find_mem-Spares :
    (os : Os) (getenv : Env) (state_dir runtime_dir : CString) (w : World)
    {opened s s' : Supervisor} (id : Bytes) (i : ℕ)
    → (supervisor_open os getenv state_dir runtime_dir w).0.1 ≡ some opened
    → Steps opened s
    → (after : Steps s s') → find_mem s id ≡ some i
    → is_running (slot_at s i).state ≡ false
    → Spares id after
    → (find_mem s' id ≡ some i) × (is_running (slot_at s' i).state ≡ false)
find_mem-Spares os getenv state_dir runtime_dir w {opened} {s} {s'} id i h before after e q d =
    let (table, kept) = find_mem-Steps os getenv state_dir runtime_dir w h before after in
    let (below, used, named) = find_slot-some s.agents id e in
    let r : Rests id i s = record {
      used = used;
      named = (strcmp_eq_iff (slot_at s i).id id).0 named;
      resting = q;
    } in
    (kept id i e, (Steps-Rests after table r d).resting)
