-- ===== src/Supervisor/Lifecycle/Table.antt =====
-- The table of slots under the operations on one agent.
use phronesis.Base.{
  ℕ, ◌≡◌, ◌≢◌, refl, true, false, Option, none, some, ◌∷◌, arith, length-set, set, Bool-cases,
  Option-cases, inl, inr, if◌then◌else◌,
}
use phronesis.Base.Int.{ℤ}
use phronesis.Base.CString.{Bytes}
use phronesis.Policy.Types.{Rc, ok, err_notfound, err_state}
use phronesis.World.{signal, World, Os, KillAnswer, no_process}
use phronesis.Supervisor.Types.{Slot, Supervisor, slot_at, put_slot, is_running}
use phronesis.Supervisor.Slots.{
  Loaded, loaded, not_loaded, find_mem, free_slot, alloc_mem, fresh_slot,
}
use phronesis.Supervisor.Slots.Unique.{IsTable, IsTable-put_same, IsSlotOf, slot_or-set, put_free}
use phronesis.Supervisor.Slots.Load.{LoadsTo, found, unchanged, load_agent-Loading}
use phronesis.Supervisor.Process.{reaped, reap_slot}
use phronesis.Supervisor.Lifecycle.Acquire.{
  reap_at, Acquired, vacant, occupied, refused, acquire_new, acquire_loaded, acquire,
}

-- From `s` on, only slot i has changed, it is the agent's, and the table is well formed.
pub record IsOwn (id : Bytes) (i : ℕ) (s s' : Supervisor) : Type 0 where
  pub table : IsTable s'
  pub slot : IsSlotOf id i s s'

IsOwn-of :
    (s s' : Supervisor) (id : Bytes) (i : ℕ) → IsTable s' → IsSlotOf id i s s' → IsOwn id i s s'
IsOwn-of s s' id i t o = record { table = t; slot = o }

-- The agent's slot takes a value with the same id.
pub put-IsOwn :
    (s s' : Supervisor) (id : Bytes) (i : ℕ) (v : Slot)
    → IsOwn id i s s'
    → v.id ≡ (slot_at s' i).id
    → v.in_use ≡ (slot_at s' i).in_use
    → IsOwn id i s (put_slot s' i v)
put-IsOwn s s' id i v o n u =
    let at = λ (j : ℕ). slot_or-set s'.agents i j v o.slot.below in
    record {
      table = IsTable-put_same s' i v o.table o.slot.below n u;
      slot = record {
        below = rw length-set o.slot.below;
        used = ground (arith, at i, o.slot.used);
        named = ground (arith, at i, o.slot.named);
        own = o.slot.own;
        others = λ j d. ground (arith, at j, o.slot.others j d);
      };
    }

pub slot_at-put_slot :
    (s s' : Supervisor) (id : Bytes) (i : ℕ) (v : Slot)
    → IsOwn id i s s'
    → slot_at (put_slot s' i v) i ≡ v
slot_at-put_slot s s' id i v o = ground (arith, slot_or-set s'.agents i i v o.slot.below)

reaped_same :
    (answer : KillAnswer) (st : Option ℤ) (a : Slot)
    → ((reaped answer st a).id ≡ a.id) × ((reaped answer st a).in_use ≡ a.in_use)
unfolding reaped
reaped_same answer (some st) a = (refl, refl)
reaped_same no_process none a = (refl, refl)
reaped_same _ none a = (refl, refl)

pub reap_slot_same :
    (os : Os) (a : Slot) (w : World)
    → ((reap_slot os a w).0.id ≡ a.id) × ((reap_slot os a w).0.in_use ≡ a.in_use)
unfolding reap_slot
reap_slot_same os a w =
    ground
      (arith, reaped_same (os.kill_answer w.calls) (os.wait_answer (signal a.pid 0 ∷ w.calls)) a)

pub reap-IsOwn :
    (os : Os) (s s' : Supervisor) (id : Bytes) (i : ℕ) (w : World)
    → IsOwn id i s s'
    → IsOwn id i s (reap_at os s' i w).0
unfolding reap_at
reap-IsOwn os s s' id i w o =
    let (n, u) = reap_slot_same os (slot_at s' i) w in put-IsOwn s s' id i _ o n u

-- What acquire leaves behind each of its answers.
pub data AcquiredTo (id : Bytes) (s s' : Supervisor) : Acquired → Type 0 where
  is_vacant :
      {i : ℕ}
      → IsOwn id i s s'
      → is_running (slot_at s' i).state ≡ false
      → AcquiredTo id s s' (vacant i)
  is_occupied :
      {i : ℕ}
      → IsOwn id i s s'
      → is_running (slot_at s' i).state ≡ true
      → AcquiredTo id s s' (occupied i)
  is_refused : {rc : Rc} → rc ≢ ok → s' ≡ s → AcquiredTo id s s' (refused rc)

acquire_new_full :
    (s : Supervisor) (id : Bytes)
    → free_slot s.agents ≡ none
    → acquire_new s id ≡ (refused err_state, s)
unfolding acquire_new alloc_mem
acquire_new_full s id e = ground arith

abbrev new_slot : Bytes → Slot
new_slot id = record fresh_slot { id = id }

acquire_new_free :
    (s : Supervisor) (id : Bytes) {i : ℕ}
    → free_slot s.agents ≡ some i
    → acquire_new s id ≡ (vacant i, put_slot (put_slot s i fresh_slot) i (new_slot id))
unfolding acquire_new alloc_mem
acquire_new_free s id e = ground arith

acquire_new-AcquiredTo :
    (s : Supervisor) (id : Bytes)
    → IsTable s
    → find_mem s id ≡ none
    → AcquiredTo id s (acquire_new s id).1 (acquire_new s id).0
acquire_new-AcquiredTo s id t f = elim (Option-cases (free_slot s.agents)) [
  | inl e ↦ rw (acquire_new_full s id e) (is_refused (λ x. ground arith) refl)
  | inr (i, e) ↦
      let (table, slot) = put_free s id (new_slot id) t f e refl refl in
      let own = IsOwn-of s _ id i table slot in
      rw (acquire_new_free s id e) (is_vacant own (vacant_stopped i own))
]
  where
    vacant_stopped :
        (i : ℕ)
        → IsOwn id i s (put_slot (put_slot s i fresh_slot) i (new_slot id))
        → is_running (slot_at (put_slot (put_slot s i fresh_slot) i (new_slot id)) i).state ≡ false
    vacant_stopped i o =
        let below = rw length-set at o.slot.below in
        ground (arith, slot_or-set (set s.agents i fresh_slot) i i (new_slot id) below)

occupied_or_vacant :
    (s s' : Supervisor) (id : Bytes) (i : ℕ)
    → IsOwn id i s s'
    → AcquiredTo id s s' (if is_running (slot_at s' i).state then occupied i else vacant i)
occupied_or_vacant s s' id i o = elim (Bool-cases (is_running (slot_at s' i).state)) [
  | inl e ↦ rw e (is_occupied o e)
  | inr e ↦ rw e (is_vacant o e)
]

acquire_loaded-AcquiredTo :
    (os : Os) (id : Bytes) (l : Loaded) (s s' : Supervisor) (w : World)
    → IsTable s'
    → LoadsTo id s s' l
    → AcquiredTo id s (acquire_loaded os id l s' w).1 (acquire_loaded os id l s' w).0
unfolding acquire_loaded
acquire_loaded-AcquiredTo os id (loaded i) s s' w t (found slot same) =
    occupied_or_vacant s (reap_at os s' i w).0 id i
      (reap-IsOwn os s s' id i w (record { table = t; slot = slot }))
acquire_loaded-AcquiredTo os id (not_loaded err_notfound) s s' w t (unchanged n f e) =
    rw e (acquire_new-AcquiredTo s id (rw e at t) f)
acquire_loaded-AcquiredTo os id (not_loaded ok) s s' w t (unchanged n f e) = is_refused n e
acquire_loaded-AcquiredTo os id (not_loaded _) s s' w t (unchanged n f e) = is_refused n e

pub acquire-AcquiredTo :
    (os : Os) (s : Supervisor) (id : Bytes) (w : World)
    → IsTable s
    → AcquiredTo id s (acquire os s id w).1 (acquire os s id w).0
unfolding acquire
acquire-AcquiredTo os s id w t =
    let (t', l) = load_agent-Loading os s id w t in acquire_loaded-AcquiredTo os id _ s _ _ t' l
