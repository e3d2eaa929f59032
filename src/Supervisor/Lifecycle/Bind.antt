-- ===== src/Supervisor/Lifecycle/Bind.antt =====
-- phronesis_supervisor_bind.
use phronesis.Base.{ℕ, ◌&&◌, ◌||◌, not, some, [], ◌++◌, if◌then◌else◌}
use phronesis.Base.Int.{ℤ, pos, negsuc, gt_ℕ, is_negative}
use phronesis.Base.CString.{Bytes, CString, codes, is_set, or_empty, nonempty, snprintf_s}
use phronesis.Base.Decimal.{print_ℤ}
use phronesis.Policy.Types.{Rc, ok, err_inval, err_exists, err_io, is_ok}
use phronesis.World.{World, Os}
use phronesis.ActionLog.Records.{action_log_append}
use phronesis.Supervisor.Types.{Slot, Supervisor, slot_at, put_slot, running, detail_max}
use phronesis.Supervisor.SlotFile.{write_slot}
use phronesis.Supervisor.Lifecycle.Acquire.{
  Acquired, vacant, occupied, refused, valid_agent, acquire,
}

-- The slot is stored, written and logged.
unfoldable pub bind_commit :
    Os → Supervisor → ℕ → Bytes → Slot → Bytes → World → Rc × Supervisor × World
bind_commit os s i id a detail w =
    let s' = put_slot s i a in
    let (written, w1) = write_slot os s' a w in
    let (logged, w2) =
      action_log_append os (some s.action_log) (some id) (some (codes "bind"))
        (some (snprintf_s detail_max (detail ++ print_ℤ a.pid))) w1 in
    if is_ok written then (ok, s', w2) else (err_io, s', w1)

-- A running slot with no workspace takes the one that is given.
unfoldable pub filled_slot : Slot → CString → ℤ → Slot
filled_slot a workspace pid = record a {
  workspace = or_empty workspace;
  pid = if gt_ℕ pid 0 then pid else a.pid;
  pgid = if gt_ℕ pid 1 then pid else a.pgid;
}

-- The slot of an agent that does not run; no workspace given keeps the old one.
unfoldable pub bound_slot : Slot → CString → CString → ℤ → Slot
bound_slot a mode workspace pid = record a {
  pid = pid;
  pgid = if gt_ℕ pid 1 then pid else pos 0;
  state = running;
  exit_status = negsuc 0;
  cgroup_path = [];
  mode = if is_set mode then or_empty mode else codes "develop";
  workspace = if is_set workspace then or_empty workspace else a.workspace;
}

unfoldable pub bind_acquired :
    Os → Acquired → Supervisor → Bytes → CString → CString → ℤ → World → Rc × Supervisor × World
unfolding bind_commit filled_slot bound_slot
bind_acquired os (refused rc) s id mode workspace pid w = (rc, s, w)
bind_acquired os (occupied i) s id mode workspace pid w =
    if not (nonempty (slot_at s i).workspace) && is_set workspace
    then bind_commit os s i id (filled_slot (slot_at s i) workspace pid)
        (codes "bind fill-workspace pid=") w
    else (err_exists, s, w)
bind_acquired os (vacant i) s id mode workspace pid w =
    bind_commit os s i id (bound_slot (slot_at s i) mode workspace pid) (codes "bind pid=") w

unfoldable pub supervisor_bind :
    Os → Supervisor → CString → CString → CString → ℤ → World → Rc × Supervisor × World
unfolding bind_acquired
supervisor_bind os s agent_id mode workspace pid w =
    let (a, s', w') = acquire os s (or_empty agent_id) w in
    if not (valid_agent agent_id mode workspace) || is_negative pid
    then (err_inval, s, w)
    else bind_acquired os a s' (or_empty agent_id) mode workspace pid w'
