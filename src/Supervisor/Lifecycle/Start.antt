-- ===== src/Supervisor/Lifecycle/Start.antt =====
-- phronesis_supervisor_start, in the parent; the child only calls setpgid and execvp.
use phronesis.Base.{ℕ, ◌&&◌, not, none, some, List, [], ◌∷◌, ◌++◌, take, if◌then◌else◌}
use phronesis.Base.Int.{ℤ, pos, negsuc}
use phronesis.Base.CString.{Bytes, CString, codes, is_set, or_empty, nonempty, snprintf_s}
use phronesis.Base.Decimal.{print_ℤ}
use phronesis.Policy.Types.{Rc, ok, err_inval, err_exists, err_io, err_spawn, is_ok}
use phronesis.World.{World, Os, call, forked, set_group}
use phronesis.ActionLog.Records.{action_log_append}
use phronesis.Cgroup.{cgroup_create, cgroup_attach, cgroup_remove}
use phronesis.Supervisor.Types.{
  Slot, Supervisor, slot_at, put_slot, running, failed, path_max, detail_max,
}
use phronesis.Supervisor.SlotFile.{write_slot}
use phronesis.Supervisor.Process.{kill_tree}
use phronesis.Supervisor.Lifecycle.Acquire.{
  Acquired, vacant, occupied, refused, valid_agent, acquire,
}

-- The slot as it is filled behind fork; a valid mode and a valid workspace fit their fields.
unfoldable pub started_slot : Slot → ℤ → CString → CString → Slot
started_slot a pid mode workspace = record a {
  pid = pid;
  pgid = pid;
  state = running;
  exit_status = negsuc 0;
  cgroup_path = [];
  mode = if is_set mode then or_empty mode else codes "develop";
  workspace = if is_set workspace then or_empty workspace else [];
}

-- The control group that the process has been placed in, or the empty path.
unfoldable pub place_in_cgroup : Os → Supervisor → Bytes → ℤ → World → Bytes × World
place_in_cgroup os s id pid w =
    let (rc, path, w1) = cgroup_create os (some s.runtime_dir) (some id) path_max w in
    let (attached, w2) = cgroup_attach os path pid w1 in
    if is_ok rc && nonempty path then (if is_ok attached then path else [], w2) else (path, w1)

unfoldable pub start_detail : Slot → Bytes → Bytes
start_detail a cmd = snprintf_s detail_max (
    codes "pid="
    ++ (print_ℤ a.pid
        ++ (codes " pgid="
            ++ (print_ℤ a.pid
                ++ (codes " cmd="
                    ++ (take 64 cmd
                        ++ (codes " cgroup="
                            ++ take 128 (
                                if nonempty a.cgroup_path
                                then a.cgroup_path
                                else codes "none"))))))))

-- The slot could not be written: the process is killed, and the slot has failed.
unfoldable pub start_undone : Os → Supervisor → ℕ → World → Rc × Supervisor × World
start_undone os s i w =
    let a = slot_at s i in
    let w1 = (kill_tree os a.pid w).1 in
    let w2 = cgroup_remove os a.cgroup_path w1 in
    let a' = record a { state = failed; pid = pos 0; cgroup_path = [] } in
    let (rc, w3) = write_slot os s a' w2 in (err_io, put_slot s i a', w3)

-- From fork on, for the slot i.
unfoldable pub start_child :
    Os → Supervisor → ℕ → Bytes → CString → CString → Bytes → ℤ → World → Rc × Supervisor × World
unfolding started_slot place_in_cgroup start_undone
start_child os s i id mode workspace cmd pid w =
    let a = started_slot (slot_at s i) pid mode workspace in
    let (cgroup, w1) = place_in_cgroup os s id pid (call (set_group pid) w) in
    let a' = record a { cgroup_path = cgroup } in
    let s' = put_slot s i a' in
    let (written, w2) = write_slot os s' a' w1 in
    let (logged, w3) =
      action_log_append os (some s.action_log) (some id) (some (codes "start"))
        (some (start_detail a' cmd)) w2 in
    if is_ok written then (ok, s', w3) else start_undone os s' i w2

unfoldable pub start_acquired :
    Os → Acquired → Supervisor → Bytes → CString → CString → Bytes → World → Rc × Supervisor × World
unfolding start_child
start_acquired os (refused rc) s id mode workspace cmd w = (rc, s, w)
start_acquired os (occupied i) s id mode workspace cmd w = (err_exists, s, w)
start_acquired os (vacant i) s id mode workspace cmd w = elim (os.fork_answer w.calls) [
  | none ↦ (err_spawn, s, call forked w)
  | some pid ↦ start_child os s i id mode workspace cmd (pos pid) (call forked w)
]

-- `argv` is not NULL here; its first word, if it has one, is the command.
unfoldable pub supervisor_start :
    Os → Supervisor → CString → CString → CString → List Bytes → World → Rc × Supervisor × World
unfolding start_acquired
supervisor_start os s agent_id mode workspace [] w = (err_inval, s, w)
supervisor_start os s agent_id mode workspace (cmd ∷ argv) w =
    let (a, s', w') = acquire os s (or_empty agent_id) w in
    if not (valid_agent agent_id mode workspace)
    then (err_inval, s, w)
    else start_acquired os a s' (or_empty agent_id) mode workspace cmd w'
