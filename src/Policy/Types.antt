-- ===== src/Policy/Types.antt =====
-- The decisions, the reason codes and the result of a check: supervisor.h and policy_reason.c.
use phronesis.Base.{ℕ, Bool, true, false, []}
use phronesis.Base.CString.{Bytes}

-- phronesis_decision_t
pub data Decision : Type 0 where
  deny allow prompt : Decision

-- phronesis_policy_reason_t, in the order of its ordinals
pub data Reason : Type 0 where
  unspecified tools_default_deny path_outside_workspace path_under_workspace_allow : Reason
  invalid_message field_too_long deny_all high_risk_prompt seat_board_allow : Reason
  model_start_allow missing_tool_action unknown_seat_action pack_missing : Reason
  pack_load_failed pack_runtime_error pack_bad_result shell_view_build_failed : Reason
  python_requires_uv_run python_dash_c_denied python_missing_pep723 : Reason
  shell_exec_allow pack_reloaded pack_path_invalid shell_dangerous_runner : Reason
  shell_remote_exec shell_privilege_denied shell_git_dangerous : Reason
  shell_secret_in_argv path_sensitive_deny secret_export_denied : Reason
  audio_mic_open_deny audio_listen_arm_prompt audio_always_listen_deny : Reason
  audio_network_stt_deny audio_inject_deny audio_fixture_allow : Reason
  audio_unknown_action : Reason

-- The value of each enumerator, which the messages carry.
unfoldable pub decision_ordinal : Decision → ℕ
decision_ordinal deny = 0
decision_ordinal allow = 1
decision_ordinal prompt = 2

unfoldable pub reason_ordinal : Reason → ℕ
reason_ordinal unspecified = 0
reason_ordinal tools_default_deny = 1
reason_ordinal path_outside_workspace = 2
reason_ordinal path_under_workspace_allow = 3
reason_ordinal invalid_message = 4
reason_ordinal field_too_long = 5
reason_ordinal deny_all = 6
reason_ordinal high_risk_prompt = 7
reason_ordinal seat_board_allow = 8
reason_ordinal model_start_allow = 9
reason_ordinal missing_tool_action = 10
reason_ordinal unknown_seat_action = 11
reason_ordinal pack_missing = 12
reason_ordinal pack_load_failed = 13
reason_ordinal pack_runtime_error = 14
reason_ordinal pack_bad_result = 15
reason_ordinal shell_view_build_failed = 16
reason_ordinal python_requires_uv_run = 17
reason_ordinal python_dash_c_denied = 18
reason_ordinal python_missing_pep723 = 19
reason_ordinal shell_exec_allow = 20
reason_ordinal pack_reloaded = 21
reason_ordinal pack_path_invalid = 22
reason_ordinal shell_dangerous_runner = 23
reason_ordinal shell_remote_exec = 24
reason_ordinal shell_privilege_denied = 25
reason_ordinal shell_git_dangerous = 26
reason_ordinal shell_secret_in_argv = 27
reason_ordinal path_sensitive_deny = 28
reason_ordinal secret_export_denied = 29
reason_ordinal audio_mic_open_deny = 30
reason_ordinal audio_listen_arm_prompt = 31
reason_ordinal audio_always_listen_deny = 32
reason_ordinal audio_network_stt_deny = 33
reason_ordinal audio_inject_deny = 34
reason_ordinal audio_fixture_allow = 35
reason_ordinal audio_unknown_action = 36

-- phronesis_policy_result_t
pub record PolicyResult : Type 0 where
  pub decision : Decision
  pub code : Reason
  pub reason : Bytes

-- phronesis_policy_result_set: the memset leaves the reason empty.
abbrev pub policy_result_set : Decision → Reason → PolicyResult
policy_result_set d c = record { decision = d; code = c; reason = [] }

-- The status codes of the C functions: PHRONESIS_OK and PHRONESIS_ERR_*.
pub data Rc : Type 0 where
  ok err_inval err_exists err_notfound err_io err_spawn err_state : Rc

abbrev pub is_ok : Rc → Bool
is_ok ok = true
is_ok _ = false
