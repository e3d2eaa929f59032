-- ===== src/Tests/OnPolicy.antt =====
-- The path rules and the decision table on concrete paths.
use phronesis.Base.{◌≡◌, refl, ◌||◌, ◌&&◌, true, some, List, [], ◌∷◌, ◌++◌}
use phronesis.Base.CString.{Bytes, codes, strcmp_eq, strrchr, starts_with, strstr, strip_prefix}
use phronesis.Path.Components.{names, no_dots, keep_names, first, later, clean_components}
use phronesis.Path.Lexical.{head_is, drop_slashes}
use phronesis.Policy.Env.{policy_deny_all}
use phronesis.Policy.Workspace.{is_clean_abs_path, path_under_workspace}
use phronesis.Policy.Workspace.Containment.{
  path_under_workspace-names, is_clean_abs_path-components,
}
use phronesis.Policy.Workspace.Complete.{path_under_workspace_complete}
use phronesis.Policy.Sensitive.{
  path_is_sensitive, sensitive_path, sensitive_base, base_name, sensitive_component,
  sensitive_extension,
}
use phronesis.Policy.Eval.{is, policy_eval, eval_path}
use phronesis.Policy.Eval.Decisions.{IsContained, policy_eval-IsContained}
use phronesis.Tests.Machine.{no_env}

abbrev root_dir : Bytes
root_dir = codes "/home/me/work"

abbrev source_file : Bytes
source_file = codes "/home/me/work/src/a.c"

policy_eval-IsContained_example :
    IsContained (some root_dir) (some source_file)
    × ((is (codes "read") (codes "read")
          || is (codes "read") (codes "write")
          || is (codes "fs") (codes "shell") && is (codes "read") (codes "exec"))
        ≡ true)
unfolding policy_eval policy_deny_all strcmp_eq eval_path path_is_sensitive sensitive_path
    sensitive_base base_name strrchr starts_with sensitive_component strstr sensitive_extension
    path_under_workspace is_clean_abs_path strip_prefix drop_slashes
policy_eval-IsContained_example =
    policy_eval-IsContained no_env (some root_dir) (some (codes "fs")) (some (codes "read"))
      (some source_file) refl refl refl

path_under_workspace-names_example :
    ((rest : List Bytes) × (names source_file ≡ names root_dir ++ rest))
    × (no_dots (names source_file) ≡ true)
unfolding path_under_workspace is_clean_abs_path strip_prefix drop_slashes
path_under_workspace-names_example = path_under_workspace-names root_dir source_file refl

path_under_workspace_complete_example :
    path_under_workspace (some root_dir) (some source_file) ≡ true
unfolding is_clean_abs_path keep_names first later
path_under_workspace_complete_example =
    path_under_workspace_complete root_dir source_file (codes "src" ∷ codes "a.c" ∷ []) refl refl
      (λ e. absurd (cc)) refl

is_clean_abs_path-components_example :
    is_clean_abs_path (codes "/a//b")
    ≡ (head_is b'/' (codes "/a//b") && clean_components (later (codes "/a//b")))
is_clean_abs_path-components_example = is_clean_abs_path-components (codes "/a//b")
