-- ===== src/Supervisor/Runs/Looks.antt =====
-- What the calls that observe an agent keep of the table: phronesis_supervisor_status and the checks.
use mathlib.Core.Path.{subst}
use phronesis.Base.{
  ℕ, ◌<◌, length, false, Option, ◌≡◌, ◌≢◌, inl, inr, ap, ◌∙◌, true, none, some, arith, ◌&&◌, not,
  ◌==◌, Bool-cases,
}
use phronesis.Base.CString.{Bytes, CString, is_set, or_empty}
use phronesis.Policy.Types.{err_notfound, Reason}
use phronesis.Policy.Env.{Env, policy_deny_all}
use phronesis.World.{World, Os}
use phronesis.Supervisor.Types.{Slot, Supervisor, slot_at, is_running}
use phronesis.Supervisor.Ids.{valid_id}
use phronesis.Supervisor.Slots.{Loaded, loaded, not_loaded, load_agent}
use phronesis.Supervisor.Slots.Unique.{IsTable, IsSlotOf, slot_or-set}
use phronesis.Supervisor.Slots.Load.{LoadsTo, found, unchanged, load_agent-Loading}
use phronesis.Supervisor.Lifecycle.Table.{reap-IsOwn}
use phronesis.Supervisor.Lifecycle.Acquire.{reap_at}
use phronesis.Supervisor.Lifecycle.Status.{status_loaded, supervisor_status, require_running_agent}
use phronesis.Supervisor.Check.{
  check_loaded, check_agent, check_admitted, check_eval, log_decision, needs_agent, policy_check,
}
use phronesis.Supervisor.Process.{reap_slot}
use phronesis.Supervisor.Runs.Keeps.{Keeps, Keeps-refl, Keeps-trans, IsOwn-Keeps}

-- And a slot in use that does not run does not run afterwards.
pub record Looked (s s' : Supervisor) : Type 0 where
  pub keeps : Keeps s s'
  pub rests :
      (i : ℕ)
      → (slot_at s i).in_use ≡ true
      → is_running (slot_at s i).state ≡ false
      → is_running (slot_at s' i).state ≡ false

pub Looked-refl : {s : Supervisor} → IsTable s → Looked s s
Looked-refl t = record { keeps = Keeps-refl t; rests = λ i u r. r }

Looked-trans : {s t u : Supervisor} → Looked s t → Looked t u → Looked s u
Looked-trans k l = record {
  keeps = Keeps-trans k.keeps l.keeps;
  rests = λ i u r. l.rests i (k.keeps.stays i u).0 (k.rests i u r);
}

pub Looked-same : {s s' : Supervisor} → IsTable s → s' ≡ s → Looked s s'
Looked-same {s} t e = rw e (Looked-refl t)

reap_at_rests :
    (os : Os) (s : Supervisor) (i : ℕ) (w : World)
    → i < length s.agents
    → is_running (slot_at s i).state ≡ false
    → is_running (slot_at (reap_at os s i w).0 i).state ≡ false
unfolding reap_at reap_slot
reap_at_rests os s i w below r = ground (arith, slot_or-set s.agents i i (slot_at s i) below)

abbrev pub RestsAt : Supervisor → Supervisor → ℕ → Type 0
RestsAt s s' i =
    (slot_at s i).in_use ≡ true
    → is_running (slot_at s i).state ≡ false
    → is_running (slot_at s' i).state ≡ false

-- The slots but one are as they were, and that one rests if it did.
pub rests_but :
    (s s' : Supervisor) (i : ℕ)
    → ((j : ℕ) → j ≢ i → slot_at s' j ≡ slot_at s j)
    → RestsAt s s' i
    → (j : ℕ) → RestsAt s s' j
rests_but s s' i others own j = elim (Bool-cases (j == i)) [
  | inl e ↦ let same : i ≡ j = ground arith in subst (RestsAt s s') same own
  | inr e ↦
      let other : j ≢ i = ground arith in
      λ u r. ap (λ (a : Slot). is_running a.state) (others j other) ∙ r
]

-- Only the slot of the agent has changed, and it was as it is if it was in use, but for a reap.
reap-Looked :
    (os : Os) (id : Bytes) (i : ℕ) (s s' : Supervisor) (w : World)
    → IsTable s'
    → IsSlotOf id i s s'
    → ((slot_at s i).in_use ≡ true → slot_at s' i ≡ slot_at s i)
    → Looked s (reap_at os s' i w).0
reap-Looked os id i s s' w t slot same =
    let o = reap-IsOwn os s s' id i w (record { table = t; slot = slot }) in
    record {
      keeps = IsOwn-Keeps o;
      rests = rests_but s (reap_at os s' i w).0 i o.slot.others (λ u r.
          reap_at_rests os s' i w slot.below (ap (λ (a : Slot). is_running a.state) (same u) ∙ r));
    }

module _ (os : Os) (id : Bytes) (s s' : Supervisor) (t : IsTable s) (t' : IsTable s') where
  status_loaded-Looked :
      (l : Loaded) (w : World) → LoadsTo id s s' l → Looked s (status_loaded os l s' w).1
  unfolding status_loaded
  status_loaded-Looked (loaded i) w (found slot same) = reap-Looked os id i s s' w t' slot same
  status_loaded-Looked (not_loaded rc) w (unchanged n f e) = Looked-same t e

  check_loaded-Looked :
      (getenv : Env) (l : Loaded) (agent_id tool action path : CString) (w : World)
      → LoadsTo id s s' l
      → Looked s (check_loaded os getenv l s' agent_id tool action path w).1
  unfolding check_loaded check_eval log_decision
  check_loaded-Looked getenv (loaded i) a tool action path w (found slot same) =
      reap-Looked os id i s s' w t' slot same
  check_loaded-Looked getenv (not_loaded err_notfound) a tool action path w (unchanged n f e) =
      Looked-same t e
  check_loaded-Looked getenv (not_loaded _) a tool action path w (unchanged n f e) = Looked-same t e

module _ (os : Os) (s : Supervisor) (t : IsTable s) where
  pub status-Looked : (id : CString) (w : World) → Looked s (supervisor_status os s id w).1
  unfolding supervisor_status
  status-Looked id w = elim (Bool-cases (valid_id id)) [
    | inr e ↦ rw e (Looked-refl t)
    | inl e ↦
        let (l, s', w') = load_agent os s (or_empty id) w in
        let (t', to) = load_agent-Loading os s (or_empty id) w t in
        rw e (status_loaded-Looked os (or_empty id) s s' t t' l w' to)
  ]

  pub require-Looked : (id : CString) (w : World) → Looked s (require_running_agent os s id w).1
  unfolding require_running_agent
  require-Looked id w = elim (Bool-cases (is_set id)) [
    | inr e ↦ rw e (Looked-refl t)
    | inl e ↦ rw e (status-Looked id w)
  ]

  check_agent-Looked :
      (getenv : Env) (id tool action path : CString) (w : World)
      → Looked s (check_agent os getenv s id tool action path w).1
  unfolding check_agent check_eval log_decision
  check_agent-Looked getenv id tool action path w = elim (Bool-cases (is_set id)) [
    | inr e ↦ rw e (Looked-refl t)
    | inl e ↦ elim (Bool-cases (valid_id id)) [
      | inr v ↦ rw (e, v) (Looked-refl t)
      | inl v ↦
          let (l, s', w') = load_agent os s (or_empty id) w in
          let (t', to) = load_agent-Loading os s (or_empty id) w t in
          rw (e, v)
            (check_loaded-Looked os (or_empty id) s s' t t' getenv l id tool action path w' to)
    ]
  ]

check_admitted-Looked :
    (os : Os) (getenv : Env) (refusal : Option Reason) (s : Supervisor)
    (id tool action path : CString) (w : World)
    → IsTable s
    → Looked s (check_admitted os getenv refusal s id tool action path w).1
unfolding check_admitted log_decision
check_admitted-Looked os getenv none s id tool action path w t =
    check_agent-Looked os s t getenv id tool action path w
check_admitted-Looked os getenv (some code) s id tool action path w t = Looked-refl t

pub check-Looked :
    (os : Os) (s : Supervisor) (t : IsTable s) (getenv : Env) (id tool action path : CString)
    (w : World)
    → Looked s (policy_check os getenv s id tool action path w).1
unfolding policy_check
check-Looked os s t getenv id tool action path w =
    elim (Bool-cases (not (policy_deny_all getenv) && needs_agent tool)) [
      | inr e ↦ rw e (check_agent-Looked os s t getenv id tool action path w)
      | inl e ↦
          let (refusal, s', w') = require_running_agent os s id w in
          let k = require-Looked os s t id w in
          rw e (
            Looked-trans k
              (check_admitted-Looked os getenv refusal s' id tool action path w' k.keeps.table))
    ]
