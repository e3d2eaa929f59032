-- ===== src/Tests/OnWire.antt =====
-- Messages of one agent, whose codec is a constant.
use phronesis.Policy.Eval.{policy_eval}
use phronesis.Policy.Eval.{eval_path}
use phronesis.Policy.Sensitive.{path_is_sensitive}
use phronesis.Policy.Sensitive.{sensitive_path}
use phronesis.Policy.Sensitive.{sensitive_base}
use phronesis.Policy.Sensitive.{base_name}
use phronesis.Base.CString.{strrchr}
use phronesis.Base.CString.{starts_with}
use phronesis.Policy.Sensitive.{sensitive_component}
use phronesis.Base.CString.{strstr}
use phronesis.Policy.Sensitive.{sensitive_extension}
use phronesis.Policy.Workspace.{path_under_workspace}
use phronesis.Wire.Agents.{hex_digits}
use phronesis.Supervisor.Slots.{find_slot}
use phronesis.Supervisor.Process.{reap_slot}
use phronesis.Policy.Workspace.{is_clean_abs_path}
use phronesis.Base.CString.{strip_prefix}
use phronesis.Path.Lexical.{drop_slashes}
use phronesis.Path.Lexical.{trim_slashes}
use phronesis.Supervisor.Lifecycle.Acquire.{reap_at}
use phronesis.Supervisor.Slots.{load_agent}
use phronesis.ActionLog.Escape.{hex_digit}
use phronesis.Supervisor.Ids.{valid_id}
use phronesis.Policy.Env.{policy_deny_all}
use phronesis.Wire.Agents.Distinct.{agent_id_to_hex_distinct}
use phronesis.Base.{◌≡◌, ◌≢◌, ap, arith, refl, true, none, some}
use phronesis.Base.CString.{codes, strcmp_eq}
use phronesis.Policy.Eval.Decisions.{IsContained}
use phronesis.ActionLog.Last.{until_nul}
use phronesis.Supervisor.Types.{Supervisor, zero_slot, put_slot, running}
use phronesis.Supervisor.Open.{new_supervisor}
use phronesis.Supervisor.Lifecycle.Status.{supervisor_status, require_running_agent, status_loaded}
use phronesis.Wire.Agents.{AgentId, workspace_for, admit_running_agent, agent_id_to_hex}
use phronesis.Wire.Checks.{
  Codec, SeatCheck, PathCheck, read_run, write_path, open_in, read_agent, check_seat, check_path,
  path_or_null,
}
use phronesis.Wire.Admission.{IsRunningAgent, check_seat-IsRunningAgent, check_path-IsContained}
use phronesis.Tests.Machine.{quiet, empty_world, no_env}

abbrev pub agent : AgentId
agent = record { hi = 1; lo = 255 }

abbrev codec : Codec
codec = record {
  read_seat = λ body. some (record { agent = some agent; action = read_run });
  read_model = λ body. none;
  read_path_check =
      λ body. some (record { agent = some agent; action = write_path; path = codes "/w/a" });
  read_risk = λ body. none;
}

abbrev pub seated : Supervisor
seated =
    put_slot
      (new_supervisor
        (record { state_dir = codes "/s"; runtime_dir = codes "/r"; action_log = codes "/s/l" })
        (codes "/r/agents"))
      0
      (record zero_slot {
        in_use = true;
        id = codes "000000000000000100000000000000ff";
        state = running;
        workspace = codes "/w";
      })

check_seat-IsRunningAgent_example :
    (sc : SeatCheck) × (open_in codec.read_seat (some (codes "m")) ≡ some sc)
    × IsRunningAgent quiet seated (read_agent sc.agent) empty_world
unfolding check_seat policy_deny_all strcmp_eq admit_running_agent require_running_agent
    agent_id_to_hex supervisor_status valid_id hex_digit load_agent new_supervisor reap_at
check_seat-IsRunningAgent_example =
    check_seat-IsRunningAgent quiet no_env codec seated (some (codes "m")) empty_world refl

check_path-IsContained_example :
    (pc : PathCheck) × (open_in codec.read_path_check (some (codes "m")) ≡ some pc)
    × IsContained
        (workspace_for quiet seated (read_agent pc.agent) empty_world).0
        (path_or_null (until_nul pc.path))
unfolding check_path policy_deny_all strcmp_eq policy_eval eval_path until_nul path_is_sensitive
    sensitive_path sensitive_base base_name strrchr starts_with sensitive_component strstr
    sensitive_extension path_under_workspace workspace_for supervisor_status hex_digit
    agent_id_to_hex hex_digits new_supervisor valid_id load_agent find_slot status_loaded reap_at
    reap_slot is_clean_abs_path strip_prefix drop_slashes trim_slashes
check_path-IsContained_example =
    check_path-IsContained quiet no_env codec seated (some (codes "m")) empty_world refl

abbrev other_agent : AgentId
other_agent = record { hi = 255; lo = 1 }

not_same : agent ≢ other_agent
not_same e = absurd (omega (arith, ap (λ (id : AgentId). id.hi) e))

agent_id_to_hex_distinct_example : agent_id_to_hex agent ≢ agent_id_to_hex other_agent
agent_id_to_hex_distinct_example =
    agent_id_to_hex_distinct agent other_agent (omega arith, omega arith) (omega arith, omega arith)
      not_same
