-- ===== src/Policy/Eval.antt =====
-- phronesis_policy_eval of policy.c, with a result to write to, as every caller in the repository
-- passes one; the trace events are those of playground builds and are not part of a product build.
pub mod Decisions
use phronesis.Base.{Bool, true, false, ◌&&◌, ◌||◌, not, Option, none, some, ◌==◌, if◌then◌else◌}
use phronesis.Base.CString.{Bytes, CString, codes, is_set, or_empty, strcmp_eq}
use phronesis.Policy.Types.{
  Decision, deny, allow, prompt, Reason, tools_default_deny, path_outside_workspace,
  path_under_workspace_allow, high_risk_prompt, seat_board_allow, model_start_allow,
  missing_tool_action, unknown_seat_action, shell_exec_allow, path_sensitive_deny,
  secret_export_denied, PolicyResult, policy_result_set,
}
use phronesis.Policy.Env.{Env, policy_deny_all}
use phronesis.Policy.Workspace.{path_under_workspace}
use phronesis.Policy.Sensitive.{path_is_sensitive}

abbrev pub is : Bytes → Bytes → Bool
is s word = strcmp_eq s word

unfoldable pub seat_action : Bytes → Bool
seat_action action =
    is action (codes "publish_run")
    || is action (codes "read_run")
    || is action (codes "list_runs")
    || is action (codes "list_events")

-- The part of the table behind the tools "seat" and "model".
unfoldable pub eval_path : CString → Bytes → Bytes → CString → PolicyResult
eval_path workspace tool action path =
    if is action (codes "secret_export")
    then policy_result_set deny secret_export_denied
    else if is_set path
        && path_is_sensitive path
        && (is action (codes "read")
            || is action (codes "write")
            || is action (codes "delete")
            || is action (codes "exec"))
    then policy_result_set deny path_sensitive_deny
    else if is action (codes "delete") || is action (codes "network") || is action (codes "sudo")
    then policy_result_set prompt high_risk_prompt
    else if (is action (codes "read") || is action (codes "write"))
        && is_set path
        && path_under_workspace workspace path
    then policy_result_set allow path_under_workspace_allow
    else if is tool (codes "shell")
        && is action (codes "exec")
        && is_set path
        && path_under_workspace workspace path
    then policy_result_set allow shell_exec_allow
    else if is_set path && not (path_under_workspace workspace path)
    then policy_result_set deny path_outside_workspace
    else policy_result_set deny tools_default_deny

unfoldable pub policy_eval : Env → CString → CString → CString → CString → PolicyResult
policy_eval getenv workspace tool action path =
    if policy_deny_all getenv
    then policy_result_set deny Reason.deny_all
    else if not (is_set tool) || not (is_set action)
    then policy_result_set deny missing_tool_action
    else if is (or_empty tool) (codes "seat")
    then (if seat_action (or_empty action)
        then policy_result_set allow seat_board_allow
        else policy_result_set deny unknown_seat_action)
    else if is (or_empty tool) (codes "model") && is (or_empty action) (codes "start")
    then policy_result_set allow model_start_allow
    else eval_path workspace (or_empty tool) (or_empty action) path
