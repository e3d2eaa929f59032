-- ===== src/Supervisor/Lifecycle/Stopped.antt =====
-- What phronesis_supervisor_stop leaves.
use phronesis.Base.{ℕ, ◌≡◌, ◌≢◌, ◌⊎◌, refl, true, false, some, Bool-cases, inl, inr}
use phronesis.Base.Int.{gt_ℕ}
use phronesis.Base.CString.{Bytes}
use phronesis.Policy.Types.{Rc, ok}
use phronesis.World.{World, Os}
use phronesis.Supervisor.Types.{Slot, Supervisor, slot_at, put_slot, is_running}
use phronesis.Supervisor.Ids.{valid_id}
use phronesis.Supervisor.Slots.{Loaded, loaded, not_loaded}
use phronesis.Supervisor.Slots.Unique.{IsTable}
use phronesis.Supervisor.Slots.Load.{LoadsTo, found, unchanged, load_agent-Loading}
use phronesis.Supervisor.Lifecycle.Acquire.{reap_at}
use phronesis.Supervisor.Lifecycle.Table.{IsOwn, put-IsOwn, slot_at-put_slot, reap-IsOwn}
use phronesis.Supervisor.Lifecycle.Stop.{
  stop_commit, stop_group, stop_tree, stop_reaped, stop_loaded, supervisor_stop,
}

-- The agent's slot does not run, the other slots are as they were, and the table is well formed.
pub record IsStopped (id : Bytes) (s s' : Supervisor) : Type 0 where
  pub index : ℕ
  pub own : IsOwn id index s s'
  pub not_running : is_running (slot_at s' index).state ≡ false

put-IsStopped :
    (s s' : Supervisor) (id : Bytes) (i : ℕ) (v : Slot)
    → IsOwn id i s s'
    → v.id ≡ (slot_at s' i).id
    → v.in_use ≡ (slot_at s' i).in_use
    → is_running v.state ≡ false
    → IsStopped id s (put_slot s' i v)
put-IsStopped s s' id i v o n u r = record {
  index = i;
  own = put-IsOwn s s' id i v o n u;
  not_running = rw (slot_at-put_slot s s' id i v o) r;
}

stop_reaped-IsStopped :
    (os : Os) (s s' : Supervisor) (id : Bytes) (i : ℕ) (w : World)
    → IsOwn id i s s'
    → IsStopped id s (stop_reaped os s' i id w).1
unfolding stop_reaped stop_tree stop_commit
stop_reaped-IsStopped os s s' id i w o = elim (Bool-cases (is_running (slot_at s' i).state)) [
  | inr e ↦ rw e (put-IsStopped s s' id i (slot_at s' i) o refl refl e)
  | inl e ↦ elim (Bool-cases (gt_ℕ (stop_group (slot_at s' i)) 1)) [
    | inr g ↦ rw (e, g) (put-IsStopped s s' id i _ o refl refl refl)
    | inl g ↦ rw (e, g) (put-IsStopped s s' id i _ o refl refl refl)
  ]
]

stop_reaped_ok :
    (os : Os) (s : Supervisor) (i : ℕ) (id : Bytes) (w : World) → (stop_reaped os s i id w).0 ≡ ok
unfolding stop_reaped stop_tree stop_commit
stop_reaped_ok os s i id w = elim (Bool-cases (is_running (slot_at s i).state)) [
  | inr e ↦ rw e refl
  | inl e ↦ elim (Bool-cases (gt_ℕ (stop_group (slot_at s i)) 1)) [
    | inr g ↦ rw (e, g) refl
    | inl g ↦ rw (e, g) refl
  ]
]

-- A stop that returns ok has stopped the agent; one that does not has left the table as it was.
abbrev StopOutcome : Bytes → Supervisor → Rc → Supervisor → Type 0
StopOutcome id s rc s' = ((rc ≡ ok) × IsStopped id s s') ⊎ ((rc ≢ ok) × (s' ≡ s))

stop_loaded_outcome :
    (os : Os) (s s' : Supervisor) (l : Loaded) (id : Bytes) (w : World)
    → IsTable s'
    → LoadsTo id s s' l
    → StopOutcome id s (stop_loaded os l s' id w).0 (stop_loaded os l s' id w).1
unfolding stop_loaded
stop_loaded_outcome os s s' (loaded i) id w t (found slot same) =
    let (s'', w') = reap_at os s' i w in
    inl (
      stop_reaped_ok os s'' i id w',
      stop_reaped-IsStopped os s s'' id i w'
          (reap-IsOwn os s s' id i w (record { table = t; slot = slot })),
    )
stop_loaded_outcome os s s' (not_loaded rc) id w t (unchanged n f e) = inr (n, e)

-- When the id is valid and the table well formed, a stop either returns ok, and then the agent's
-- slot does not run, every other slot is as it was and the table is well formed, or returns an
-- error and leaves the table unchanged.
pub supervisor_stop-IsStopped :
    (os : Os) (s : Supervisor) (id : Bytes) (w : World)
    → IsTable s
    → valid_id (some id) ≡ true
    → (((supervisor_stop os s (some id) w).0 ≡ ok)
        × IsStopped id s (supervisor_stop os s (some id) w).1)
      ⊎ (((supervisor_stop os s (some id) w).0 ≢ ok) × ((supervisor_stop os s (some id) w).1 ≡ s))
unfolding supervisor_stop
supervisor_stop-IsStopped os s id w t v =
    let (t', l) = load_agent-Loading os s id w t in rw v (stop_loaded_outcome os s _ _ id _ t' l)
