-- ===== src/Tests/OnSupervisor.antt =====
-- Slots, their files and their processes on concrete agents.
use phronesis.Supervisor.Lifecycle.Acquire.{valid_agent, acquire}
use phronesis.Paths.Dirs.{join3, ensure_dir, mkdir_one}
use phronesis.Supervisor.Lifecycle.Bind.{supervisor_bind}
use phronesis.Supervisor.Lifecycle.Stop.{supervisor_stop}
use phronesis.Supervisor.Runs.{here, next, bind, stop}
use phronesis.Supervisor.Runs.Stable.{find_mem-Steps}
use phronesis.Supervisor.Runs.Rests.{Spares, find_mem-Spares}
use phronesis.World.Files.{fopen_x, write_close, rename, fopen_r}
use phronesis.Base.Decimal.{print_ℕ}
use phronesis.Supervisor.Ids.{valid_id, valid_token}
use phronesis.Base.{ℕ, suc, ◌≡◌, refl, ◌⊎◌, true, none, some, false, arith}
use phronesis.Base.Int.{pos, negsuc, gt_ℕ}
use phronesis.Base.CString.{Bytes, codes, strcmp_eq}
use phronesis.Policy.Types.{ok, err_inval}
use phronesis.Paths.Resolve.{Resolved, paths_resolve}
use phronesis.Supervisor.Types.{Slot, Supervisor, zero_slot, running, slot_at, is_running}
use phronesis.Supervisor.SlotFile.{slot_file, slot_tmp, slot_line, write_slot, read_slot_file}
use phronesis.Supervisor.SlotFile.RoundTrip.{unset, token, IsPersistent}
use phronesis.Supervisor.SlotFile.Atomic.{IsAtomic, write_slot-IsAtomic}
use phronesis.Supervisor.SlotFile.ReadBack.{restored, read_slot_file-write_slot}
use phronesis.Supervisor.Slots.{find_mem, find_slot, free_slot, load_agent}
use phronesis.Supervisor.Slots.Unique.{IsTable}
use phronesis.Supervisor.Process.{kill_tree}
use phronesis.Supervisor.Process.Signals.{IsKilled, kill_tree-IsKilled}
use phronesis.Supervisor.Open.{supervisor_open, new_supervisor}
use phronesis.Tests.Machine.{quiet, empty_world, no_env}

abbrev dirs : Resolved
dirs = record {
  state_dir = codes "/s";
  runtime_dir = codes "/r";
  action_log = codes "/s/log/actions.jsonl";
}

abbrev fresh : Supervisor
fresh = new_supervisor dirs (codes "/r/agents")

abbrev agent : Slot
agent = record zero_slot {
  in_use = true;
  id = codes "a1";
  state = running;
  pid = pos 77;
  pgid = pos 77;
  exit_status = negsuc 0;
  mode = codes "develop";
}

agent-IsPersistent : IsPersistent agent
unfolding valid_id valid_token strcmp_eq
agent-IsPersistent = record {
  id_valid = refl;
  state_known = refl;
  mode_field = token refl refl;
  workspace_field = unset;
}

write_slot-IsAtomic_example :
    IsAtomic
      (slot_file fresh (codes "a1"))
      (slot_tmp quiet (slot_file fresh (codes "a1")))
      (slot_line agent)
      empty_world
      (write_slot quiet fresh agent empty_world).0
      (write_slot quiet fresh agent empty_world).1
write_slot-IsAtomic_example = write_slot-IsAtomic quiet fresh agent empty_world

read_slot_file-write_slot_example :
    (read_slot_file quiet fresh (codes "a1") (write_slot quiet fresh agent empty_world).1).0
    ≡ (ok, restored agent)
unfolding write_slot new_supervisor print_ℕ fopen_x write_close rename
read_slot_file-write_slot_example =
    read_slot_file-write_slot quiet fresh agent empty_world refl agent-IsPersistent refl

kill_tree-IsKilled_example :
    ((gt_ℕ (pos 77) 1 ≡ false) × (kill_tree quiet (pos 77) empty_world ≡ (err_inval, empty_world)))
    ⊎ ((n : ℕ) × (pos 77 ≡ pos (suc (suc n)))
        × ((kill_tree quiet (pos 77) empty_world).0 ≡ ok)
        × IsKilled quiet (negsuc (suc n)) empty_world (kill_tree quiet (pos 77) empty_world).1)
kill_tree-IsKilled_example = kill_tree-IsKilled quiet (pos 77) empty_world

abbrev bound_agent : Supervisor
bound_agent =
    (supervisor_bind quiet fresh (some (codes "a1")) none (some (codes "/w")) (pos 0) empty_world).1

find_mem-Steps_example :
    IsTable bound_agent
    × ((id : Bytes) (i : ℕ)
        → find_mem bound_agent id ≡ some i
        → find_mem (supervisor_stop quiet bound_agent (some (codes "a1")) empty_world).1 id
          ≡ some i)
unfolding supervisor_open paths_resolve strcmp_eq join3 ensure_dir mkdir_one
find_mem-Steps_example =
    find_mem-Steps quiet no_env (some (codes "/s")) (some (codes "/r")) empty_world refl
      (next here (bind quiet (some (codes "a1")) none (some (codes "/w")) (pos 0) empty_world))
      (next here (stop quiet (some (codes "a1")) empty_world))

-- The agent that is bound has the first slot.
bound_first : find_mem bound_agent (codes "a1") ≡ some 0
unfolding supervisor_bind find_slot valid_agent valid_id valid_token acquire new_supervisor
    read_slot_file fopen_r free_slot write_slot print_ℕ fopen_x write_close rename strcmp_eq
bound_first = refl

abbrev stopped_agent : Supervisor
stopped_agent = (supervisor_stop quiet bound_agent (some (codes "a1")) empty_world).1

-- An agent that is stopped keeps the slot, and does not run.
stopped_first :
    (find_mem stopped_agent (codes "a1") ≡ some 0)
    × (is_running (slot_at stopped_agent 0).state ≡ false)
unfolding supervisor_bind supervisor_stop find_slot valid_id load_agent valid_agent valid_token
    acquire new_supervisor read_slot_file fopen_r free_slot write_slot print_ℕ fopen_x write_close
    rename strcmp_eq
stopped_first = (refl, refl)

find_mem-Spares_example :
    let s' =
      (supervisor_bind quiet stopped_agent (some (codes "b")) none none (pos 5) empty_world).1 in
    (find_mem s' (codes "a1") ≡ some 0) × (is_running (slot_at s' 0).state ≡ false)
unfolding supervisor_open Spares paths_resolve strcmp_eq join3 ensure_dir mkdir_one
find_mem-Spares_example =
    find_mem-Spares quiet no_env (some (codes "/s")) (some (codes "/r")) empty_world (codes "a1") 0
      refl
      (next
        (next here (bind quiet (some (codes "a1")) none (some (codes "/w")) (pos 0) empty_world))
        (stop quiet (some (codes "a1")) empty_world))
      (next here (bind quiet (some (codes "b")) none none (pos 5) empty_world)) stopped_first.0
      stopped_first.1 (tt, λ e. ground arith)
