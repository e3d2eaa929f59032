-- ===== src/Supervisor/Lifecycle/Stop.antt =====
-- phronesis_supervisor_stop.
use phronesis.Base.{ℕ, Bool, false, not, some, [], ◌++◌, take, if◌then◌else◌}
use phronesis.Base.Int.{ℤ, pos, negsuc, gt_ℕ}
use phronesis.Base.CString.{Bytes, CString, codes, or_empty, nonempty, snprintf_s}
use phronesis.Base.Decimal.{print_ℤ}
use phronesis.Policy.Types.{Rc, ok, err_inval, is_ok}
use phronesis.World.{World, Os}
use phronesis.ActionLog.Records.{action_log_append}
use phronesis.Cgroup.{cgroup_kill, cgroup_remove}
use phronesis.Supervisor.Types.{
  Slot, Supervisor, slot_at, put_slot, stopped, is_running, detail_max,
}
use phronesis.Supervisor.Ids.{valid_id}
use phronesis.Supervisor.Slots.{Loaded, loaded, not_loaded, load_agent}
use phronesis.Supervisor.SlotFile.{write_slot}
use phronesis.Supervisor.Process.{kill_tree}
use phronesis.Supervisor.Lifecycle.Acquire.{reap_at}

-- The slot is stored, written and logged, whatever fails.
unfoldable pub stop_commit :
    Os → Supervisor → ℕ → Bytes → Slot → Bytes → World → Rc × Supervisor × World
stop_commit os s i id a detail w =
    let s' = put_slot s i a in
    let (written, w1) = write_slot os s' a w in
    let (logged, w2) =
      action_log_append os (some s.action_log) (some id) (some (codes "stop")) (some detail) w1 in
    (ok, s', w2)

-- pgid = a->pgid > 0 ? a->pgid : a->pid
abbrev pub stop_group : Slot → ℤ
stop_group a = if gt_ℕ a.pgid 0 then a.pgid else a.pid

unfoldable pub stop_detail : Bool → Slot → Bytes
stop_detail by_cgroup a = snprintf_s detail_max (
    if by_cgroup
    then codes "cgroup.kill path="
      ++ (take 200 a.cgroup_path ++ (codes " pgid=" ++ print_ℤ (stop_group a)))
    else codes "process-group pgid=" ++ print_ℤ (stop_group a))

-- if (a->cgroup_path[0] && phronesis_cgroup_kill(a->cgroup_path) == PHRONESIS_OK)
unfoldable pub stop_cgroup : Os → Slot → World → Bool × World
stop_cgroup os a w =
    let (rc, w') = cgroup_kill os a.cgroup_path w in
    if nonempty a.cgroup_path then (is_ok rc, w') else (false, w)

-- A running agent with a process group of its own.
unfoldable pub stop_tree : Os → Supervisor → ℕ → Bytes → World → Rc × Supervisor × World
unfolding stop_commit stop_cgroup
stop_tree os s i id w =
    let a = slot_at s i in
    let (by_cgroup, w1) = stop_cgroup os a w in
    let w2 = (kill_tree os (stop_group a) w1).1 in
    let w3 = cgroup_remove os a.cgroup_path w2 in
    stop_commit os s i id
      (record a { state = stopped; pid = pos 0; exit_status = negsuc 0; cgroup_path = [] })
      (stop_detail by_cgroup a) w3

unfoldable pub stop_reaped : Os → Supervisor → ℕ → Bytes → World → Rc × Supervisor × World
unfolding stop_tree stop_commit
stop_reaped os s i id w =
    let a = slot_at s i in
    if not (is_running a.state)
    then stop_commit os s i id a (codes "idempotent") w
    else if not (gt_ℕ (stop_group a) 1)
    then stop_commit os s i id (record a { state = stopped; pid = pos 0; pgid = pos 0 })
        (codes "bind-only") w
    else stop_tree os s i id w

unfoldable pub stop_loaded : Os → Loaded → Supervisor → Bytes → World → Rc × Supervisor × World
unfolding stop_reaped
stop_loaded os (not_loaded rc) s id w = (rc, s, w)
stop_loaded os (loaded i) s id w = let (s', w') = reap_at os s i w in stop_reaped os s' i id w'

unfoldable pub supervisor_stop : Os → Supervisor → CString → World → Rc × Supervisor × World
unfolding stop_loaded
supervisor_stop os s agent_id w =
    let (l, s', w') = load_agent os s (or_empty agent_id) w in
    if not (valid_id agent_id)
    then (err_inval, s, w)
    else stop_loaded os l s' (or_empty agent_id) w'
