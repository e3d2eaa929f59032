-- ===== src/Supervisor/Lifecycle/Started.antt =====
-- What phronesis_supervisor_start leaves in the table.
use phronesis.Base.{
  ℕ, ◌≡◌, ◌≢◌, refl, Bool, true, false, Option, none, some, List, ◌∷◌, arith, Bool-cases, inl, inr,
  if◌then◌else◌,
}
use phronesis.Base.Int.{ℤ, pos}
use phronesis.Base.CString.{Bytes, CString}
use phronesis.Policy.Types.{Rc, ok, err_exists, err_io, err_spawn, is_ok}
use phronesis.World.{World, Os, call, forked, set_group}
use phronesis.Supervisor.SlotFile.{write_slot}
use phronesis.Supervisor.Types.{Slot, Supervisor, slot_at, put_slot, is_running}
use phronesis.Supervisor.Slots.Unique.{IsTable}
use phronesis.Supervisor.Lifecycle.Acquire.{
  Acquired, vacant, occupied, refused, valid_agent, acquire,
}
use phronesis.Supervisor.Lifecycle.Start.{
  place_in_cgroup, started_slot, start_child, start_undone, start_acquired, supervisor_start,
}
use phronesis.Supervisor.Lifecycle.Table.{
  IsOwn, put-IsOwn, slot_at-put_slot, AcquiredTo, is_vacant, is_occupied, is_refused,
  acquire-AcquiredTo,
}

-- Only the agent's slot has changed, and the agent runs exactly if ok is returned.
pub record IsStarted (id : Bytes) (s : Supervisor) (rc : Rc) (s' : Supervisor) : Type 0 where
  pub index : ℕ
  pub own_slot : IsOwn id index s s'
  pub runs : is_running (slot_at s' index).state ≡ is_ok rc

abbrev Started : Bytes → Supervisor → Rc × Supervisor × World → Type 0
Started id s r = IsStarted id s r.0 r.1

if_IsStarted :
    (id : Bytes) (s : Supervisor) (b : Bool) (x y : Rc × Supervisor × World)
    → Started id s x
    → Started id s y
    → Started id s (if b then x else y)
if_IsStarted id s true x y h k = h
if_IsStarted id s false x y h k = k

put-IsStarted :
    (s s' : Supervisor) (id : Bytes) (i : ℕ) (v : Slot) (rc : Rc)
    → IsOwn id i s s'
    → v.id ≡ (slot_at s' i).id
    → v.in_use ≡ (slot_at s' i).in_use
    → is_running v.state ≡ is_ok rc
    → IsStarted id s rc (put_slot s' i v)
put-IsStarted s s' id i v rc o n u r = record {
  index = i;
  own_slot = put-IsOwn s s' id i v o n u;
  runs = rw (slot_at-put_slot s s' id i v o) r;
}

start_undone-IsStarted :
    (os : Os) (s s' : Supervisor) (id : Bytes) (i : ℕ) (w : World)
    → IsOwn id i s s'
    → Started id s (start_undone os s' i w)
unfolding start_undone
start_undone-IsStarted os s s' id i w o = put-IsStarted s s' id i _ err_io o refl refl refl

start_child-IsStarted :
    (os : Os) (s s' : Supervisor) (i : ℕ) (id : Bytes) (mode workspace : CString) (cmd : Bytes)
    (pid : ℤ) (w : World)
    → IsOwn id i s s'
    → Started id s (start_child os s' i id mode workspace cmd pid w)
unfolding start_child started_slot
start_child-IsStarted os s s' i id mode workspace cmd pid w o =
    let (cgroup, w1) = place_in_cgroup os s' id pid (call (set_group pid) w) in
    let a : Slot = record (started_slot (slot_at s' i) pid mode workspace) {
      cgroup_path = cgroup;
    } in
    if_IsStarted id s _ _ _ (put-IsStarted s s' id i a ok o refl refl refl) (
      start_undone-IsStarted os s (put_slot s' i a) id i (write_slot os (put_slot s' i a) a w1).1
        (put-IsOwn s s' id i a o refl refl))

-- The ways that a start may end.
pub data StartOutcome (id : Bytes) (s : Supervisor) (rc : Rc) (s' : Supervisor) : Type 0 where
  started : IsStarted id s rc s' → StartOutcome id s rc s'
  runs_already :
      {i : ℕ}
      → rc ≡ err_exists
      → IsOwn id i s s'
      → is_running (slot_at s' i).state ≡ true
      → StartOutcome id s rc s'
  rejected : rc ≢ ok → s' ≡ s → StartOutcome id s rc s'

start_acquired_outcome :
    (os : Os) (a : Acquired) (s s' : Supervisor) (id : Bytes) (mode workspace : CString)
    (cmd : Bytes) (w : World)
    → AcquiredTo id s s' a
    → StartOutcome id s
        (start_acquired os a s' id mode workspace cmd w).0
        (start_acquired os a s' id mode workspace cmd w).1
unfolding start_acquired
start_acquired_outcome os (refused rc) s s' id mode workspace cmd w (is_refused n e) = rejected n e
start_acquired_outcome os (occupied i) s s' id mode workspace cmd w (is_occupied o r) =
    runs_already refl o r
start_acquired_outcome os (vacant i) s s' id mode workspace cmd w (is_vacant o r) =
    forked_outcome (os.fork_answer w.calls)
  where
    after_fork : Option ℕ → Rc × Supervisor × World
    after_fork answer = elim answer [
      | none ↦ (err_spawn, s', call forked w)
      | some pid ↦ start_child os s' i id mode workspace cmd (pos pid) (call forked w)
    ]

    forked_outcome :
        (answer : Option ℕ) → StartOutcome id s (after_fork answer).0 (after_fork answer).1
    forked_outcome none = started (record { index = i; own_slot = o; runs = r })
    forked_outcome (some pid) =
        started (start_child-IsStarted os s s' i id mode workspace cmd (pos pid) (call forked w) o)

-- From a well-formed table, a start changes no slot but the agent's and keeps the table well
-- formed. It ends with the agent running and ok, or with an error and the agent's slot not
-- running, or with the error that the agent runs already, or with another error and the table
-- unchanged.
pub supervisor_start_outcome :
    (os : Os) (s : Supervisor) (id : Bytes) (mode workspace : CString) (cmd : Bytes)
    (argv : List Bytes) (w : World)
    → IsTable s
    → StartOutcome id s
        (supervisor_start os s (some id) mode workspace (cmd ∷ argv) w).0
        (supervisor_start os s (some id) mode workspace (cmd ∷ argv) w).1
unfolding supervisor_start
supervisor_start_outcome os s id mode workspace cmd argv w t =
    elim (Bool-cases (valid_agent (some id) mode workspace)) [
      | inr e ↦ rw e (rejected (λ x. ground arith) refl)
      | inl e ↦ rw e (
          start_acquired_outcome os (acquire os s id w).0 s (acquire os s id w).1 id mode workspace
            cmd (acquire os s id w).2 (acquire-AcquiredTo os s id w t))
    ]
