-- ===== src/Tests/OnCli.antt =====
-- Agents that are bound, checked and stopped.
use phronesis.Supervisor.Lifecycle.Start.{supervisor_start}
use phronesis.Supervisor.Lifecycle.Started.{StartOutcome, supervisor_start_outcome}
use phronesis.Supervisor.SlotFile.{write_slot}
use phronesis.Base.CString.{strcmp_eq}
use phronesis.Policy.Env.{policy_deny_all}
use phronesis.Policy.Eval.{policy_eval, seat_action}
use phronesis.Supervisor.Ids.{valid_id}
use phronesis.Supervisor.Slots.{load_agent, find_slot}
use phronesis.Supervisor.Process.{reap_slot}
use phronesis.Supervisor.Lifecycle.Acquire.{reap_at}
use phronesis.Supervisor.Lifecycle.Status.{status_loaded, admit}
use phronesis.Supervisor.Check.{check_agent, check_admitted, check_loaded, check_eval, log_decision}
use phronesis.Supervisor.Ids.{valid_id}
use phronesis.Base.{◌∷◌, ◌≡◌, ◌≢◌, ◌⊎◌, refl, true, false, none, some, [], arith}
use phronesis.Base.Int.{pos}
use phronesis.Base.CString.{codes}
use phronesis.Policy.Types.{
  ok, deny, PolicyResult, Reason, policy_result_set, seat_board_allow, allow,
}
use phronesis.Paths.Resolve.{Resolved}
use phronesis.World.{World}
use phronesis.Supervisor.Types.{Supervisor, slot_at, is_running, zero_slot, put_slot, running}
use phronesis.Supervisor.Open.{new_supervisor, new_supervisor-IsTable}
use phronesis.Supervisor.Check.{policy_check}
use phronesis.Supervisor.Check.Admission.{
  decided, asks_agent, policy_check-result, policy_check_admits,
}
use phronesis.Supervisor.Lifecycle.Bind.{supervisor_bind}
use phronesis.Supervisor.Lifecycle.Stop.{supervisor_stop}
use phronesis.Supervisor.Lifecycle.Status.{
  AgentStatus, status, supervisor_status, require_running_agent,
}
use phronesis.Supervisor.Lifecycle.Bound.{BindOutcome, supervisor_bind_outcome}
use phronesis.Supervisor.Lifecycle.Stopped.{IsStopped, supervisor_stop-IsStopped}
use phronesis.Cli.Commands.{path_argument, run_check}
use phronesis.Cli.Outcomes.{run_check_passes}
use phronesis.Tests.Machine.{quiet, empty_world, no_env}

abbrev places : Resolved
places = record {
  state_dir = codes "/s";
  runtime_dir = codes "/r";
  action_log = codes "/s/log/actions.jsonl";
}

abbrev open_handle : Supervisor
open_handle = new_supervisor places (codes "/r/agents")

-- An agent bound without a process.
abbrev bound : Supervisor
bound =
    put_slot open_handle 0
      (record zero_slot { in_use = true; id = codes "a1"; state = running; workspace = codes "/w" })

abbrev board : PolicyResult
board = policy_result_set allow seat_board_allow

supervisor_bind_outcome_example :
    BindOutcome
      (codes "a1")
      (some (codes "/w"))
      open_handle
      (supervisor_bind quiet open_handle
        (some (codes "a1"))
        none
        (some (codes "/w"))
        (pos 0)
        empty_world).0
      (supervisor_bind quiet open_handle
        (some (codes "a1"))
        none
        (some (codes "/w"))
        (pos 0)
        empty_world).1
supervisor_bind_outcome_example =
    supervisor_bind_outcome quiet open_handle (codes "a1") none (some (codes "/w")) (pos 0)
      empty_world (new_supervisor-IsTable places (codes "/r/agents"))

-- The world in which the agent's slot has been written.
abbrev written_world : World
written_world = (write_slot quiet bound (slot_at bound 0) empty_world).1

supervisor_stop-IsStopped_example :
    (((supervisor_stop quiet open_handle (some (codes "a1")) written_world).0 ≡ ok)
      × IsStopped
          (codes "a1")
          open_handle
          (supervisor_stop quiet open_handle (some (codes "a1")) written_world).1)
    ⊎ (((supervisor_stop quiet open_handle (some (codes "a1")) written_world).0 ≢ ok)
        × ((supervisor_stop quiet open_handle (some (codes "a1")) written_world).1 ≡ open_handle))
unfolding valid_id
supervisor_stop-IsStopped_example =
    supervisor_stop-IsStopped quiet open_handle (codes "a1") written_world
      (new_supervisor-IsTable places (codes "/r/agents")) refl

policy_check_admits_example :
    (st : AgentStatus) × ((supervisor_status quiet bound (some (codes "a1")) empty_world).0
      ≡ status st)
    × (is_running st.state ≡ true)
unfolding strcmp_eq policy_check policy_deny_all require_running_agent supervisor_status valid_id
    load_agent new_supervisor find_slot reap_at reap_slot check_agent check_admitted status_loaded
    admit check_loaded check_eval log_decision policy_eval seat_action
policy_check_admits_example =
    policy_check_admits quiet no_env bound (some (codes "a1")) (some (codes "seat"))
      (some (codes "read_run")) none empty_world board refl refl (λ e. ground arith)

policy_check-result_example :
    let (refusal, s', w') = require_running_agent quiet bound (some (codes "a1")) empty_world in
    ((asks_agent no_env (some (codes "seat")) ≡ false)
      × (board
          ≡ decided quiet no_env
              (some (codes "a1"))
              (some (codes "seat"))
              (some (codes "read_run"))
              none
              bound
              empty_world))
    ⊎ ((asks_agent no_env (some (codes "seat")) ≡ true)
        × (refusal ≡ none)
        × (board
            ≡ decided quiet no_env
                (some (codes "a1"))
                (some (codes "seat"))
                (some (codes "read_run"))
                none
                s'
                w'))
    ⊎ ((asks_agent no_env (some (codes "seat")) ≡ true)
        × (code : Reason) × (refusal ≡ some code)
        × (board ≡ policy_result_set deny code))
unfolding strcmp_eq policy_check policy_deny_all require_running_agent supervisor_status valid_id
    load_agent new_supervisor find_slot reap_at reap_slot check_agent check_admitted status_loaded
    admit check_loaded check_eval log_decision policy_eval seat_action
policy_check-result_example =
    policy_check-result quiet no_env bound (some (codes "a1")) (some (codes "seat"))
      (some (codes "read_run")) none empty_world board refl

run_check_passes_example :
    (r : PolicyResult) × ((policy_check quiet no_env bound
        (some (codes "a1"))
        (some (codes "seat"))
        (some (codes "read_run"))
        (path_argument [])
        empty_world).0
      ≡ (ok, some r))
    × (r.decision ≢ deny)
unfolding run_check strcmp_eq policy_check policy_deny_all require_running_agent supervisor_status
    valid_id load_agent new_supervisor find_slot reap_at reap_slot check_agent check_admitted
    status_loaded admit check_loaded check_eval log_decision policy_eval seat_action
run_check_passes_example =
    run_check_passes quiet no_env bound (codes "a1") (codes "seat") (codes "read_run") []
      empty_world refl

supervisor_start_outcome_example :
    StartOutcome
      (codes "a1")
      open_handle
      (supervisor_start quiet open_handle
        (some (codes "a1"))
        none
        none
        (codes "sleep" ∷ codes "9" ∷ [])
        empty_world).0
      (supervisor_start quiet open_handle
        (some (codes "a1"))
        none
        none
        (codes "sleep" ∷ codes "9" ∷ [])
        empty_world).1
supervisor_start_outcome_example =
    supervisor_start_outcome quiet open_handle (codes "a1") none none (codes "sleep")
      (codes "9" ∷ []) empty_world (new_supervisor-IsTable places (codes "/r/agents"))
