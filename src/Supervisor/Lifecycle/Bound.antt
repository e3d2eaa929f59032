-- ===== src/Supervisor/Lifecycle/Bound.antt =====
-- What phronesis_supervisor_bind leaves in the table.
use phronesis.Base.{
  ℕ, ◌≡◌, ◌≢◌, ◌⊎◌, refl, true, false, ◌&&◌, ◌||◌, not, some, arith, Bool-cases, inl, inr,
}
use phronesis.Base.Int.{ℤ, is_negative}
use phronesis.Base.CString.{Bytes, CString, codes, is_set, or_empty, nonempty}
use phronesis.Policy.Types.{Rc, ok, err_exists, err_io, is_ok}
use phronesis.World.{World, Os}
use phronesis.Supervisor.SlotFile.{write_slot}
use phronesis.Supervisor.Types.{Slot, Supervisor, slot_at, put_slot, is_running}
use phronesis.Supervisor.Slots.Unique.{IsTable}
use phronesis.Supervisor.Lifecycle.Acquire.{
  Acquired, vacant, occupied, refused, valid_agent, acquire,
}
use phronesis.Supervisor.Lifecycle.Bind.{
  bind_commit, filled_slot, bound_slot, bind_acquired, supervisor_bind,
}
use phronesis.Supervisor.Lifecycle.Table.{
  IsOwn, put-IsOwn, slot_at-put_slot, AcquiredTo, is_vacant, is_occupied, is_refused,
  acquire-AcquiredTo,
}

-- Only the agent's slot has changed, and the agent runs, in the workspace that is given, if one is,
-- whether its file could be written or not.
pub record IsBound (id : Bytes) (workspace : CString) (s : Supervisor) (rc : Rc) (s' : Supervisor)
    : Type 0 where
  pub index : ℕ
  pub written_or_not : (rc ≡ ok) ⊎ (rc ≡ err_io)
  pub own_slot : IsOwn id index s s'
  pub runs : is_running (slot_at s' index).state ≡ true
  pub given : is_set workspace ≡ true → (slot_at s' index).workspace ≡ or_empty workspace

bind_commit-IsBound :
    (os : Os) (s s' : Supervisor) (i : ℕ) (id : Bytes) (workspace : CString) (a : Slot)
    (detail : Bytes) (w : World)
    → IsOwn id i s s'
    → a.id ≡ (slot_at s' i).id
    → a.in_use ≡ (slot_at s' i).in_use
    → is_running a.state ≡ true
    → (is_set workspace ≡ true → a.workspace ≡ or_empty workspace)
    → IsBound id workspace s
        (bind_commit os s' i id a detail w).0
        (bind_commit os s' i id a detail w).1
bind_commit-IsBound os s s' i id workspace a detail w o n u r g = rw committed (record {
  index = i;
  written_or_not = ended;
  own_slot = put-IsOwn s s' id i a o n u;
  runs = rw (slot_at-put_slot s s' id i a o) r;
  given = λ h. rw (slot_at-put_slot s s' id i a o) (g h);
})
  where
    ended :
        ((bind_commit os s' i id a detail w).0 ≡ ok)
        ⊎ ((bind_commit os s' i id a detail w).0 ≡ err_io)
    ended =
        unfold bind_commit in
        elim (Bool-cases (is_ok (write_slot os (put_slot s' i a) a w).0)) [
          | inl e ↦ inl (rw e refl)
          | inr e ↦ inr (rw e refl)
        ]

    committed : (bind_commit os s' i id a detail w).1 ≡ put_slot s' i a
    committed = unfold bind_commit in ground arith

-- The ways that a bind may end.
pub data BindOutcome (id : Bytes) (workspace : CString) (s : Supervisor) (rc : Rc) (s' : Supervisor)
    : Type 0 where
  bound : IsBound id workspace s rc s' → BindOutcome id workspace s rc s'
  -- The agent runs already; its slot is not touched, but for what a reap tells.
  runs_already :
      {i : ℕ}
      → rc ≡ err_exists
      → IsOwn id i s s'
      → is_running (slot_at s' i).state ≡ true
      → (not (nonempty (slot_at s' i).workspace) && is_set workspace) ≡ false
      → BindOutcome id workspace s rc s'
  rejected : rc ≢ ok → s' ≡ s → BindOutcome id workspace s rc s'

module _ (os : Os) (s s' : Supervisor) (id : Bytes) (mode workspace : CString) (pid : ℤ)
    (w : World) where
  bind_occupied :
      (i : ℕ)
      → IsOwn id i s s'
      → is_running (slot_at s' i).state ≡ true
      → BindOutcome id workspace s
          (bind_acquired os (occupied i) s' id mode workspace pid w).0
          (bind_acquired os (occupied i) s' id mode workspace pid w).1
  unfolding bind_acquired
  bind_occupied i o r =
      elim (Bool-cases (not (nonempty (slot_at s' i).workspace) && is_set workspace)) [
        | inr e ↦ rw e (runs_already refl o r e)
        | inl e ↦ rw e (
            bound (
              bind_commit-IsBound os s s' i id workspace (filled_slot (slot_at s' i) workspace pid)
                (codes "bind fill-workspace pid=") w o (unfold filled_slot in refl)
                (unfold filled_slot in refl) (unfold filled_slot in r)
                (λ h. unfold filled_slot in refl)))
      ]

  bind_acquired_outcome :
      (a : Acquired)
      → AcquiredTo id s s' a
      → BindOutcome id workspace s
          (bind_acquired os a s' id mode workspace pid w).0
          (bind_acquired os a s' id mode workspace pid w).1
  unfolding bind_acquired
  bind_acquired_outcome (refused rc) (is_refused n e) = rejected n e
  bind_acquired_outcome (occupied i) (is_occupied o r) = bind_occupied i o r
  bind_acquired_outcome (vacant i) (is_vacant o r) = bound (
      bind_commit-IsBound os s s' i id workspace (bound_slot (slot_at s' i) mode workspace pid)
        (codes "bind pid=") w o (unfold bound_slot in refl) (unfold bound_slot in refl)
        (unfold bound_slot in refl) (λ h. unfold bound_slot in ground arith))

-- From a well-formed table, a bind changes no slot but the agent's and keeps the table well
-- formed. It ends with the agent running, in the workspace that is given, if one is, and with ok
-- or the I/O error; or with the error that the agent runs already, when it has a workspace or
-- none is given; or with an error and the table unchanged.
pub supervisor_bind_outcome :
    (os : Os) (s : Supervisor) (id : Bytes) (mode workspace : CString) (pid : ℤ) (w : World)
    → IsTable s
    → BindOutcome id workspace s
        (supervisor_bind os s (some id) mode workspace pid w).0
        (supervisor_bind os s (some id) mode workspace pid w).1
unfolding supervisor_bind
supervisor_bind_outcome os s id mode workspace pid w t =
    elim (Bool-cases (not (valid_agent (some id) mode workspace) || is_negative pid)) [
      | inl e ↦ rw e (rejected (λ x. ground arith) refl)
      | inr e ↦ rw e (
          bind_acquired_outcome os s (acquire os s id w).1 id mode workspace pid
            (acquire os s id w).2 _ (acquire-AcquiredTo os s id w t))
    ]
