-- ===== src/Policy/Eval/Decisions.antt =====
-- What policy_eval decides.
use phronesis.Base.{◌≡◌, refl, true, false, none, some, List, ◌++◌, ◌||◌, ◌&&◌, arith}
use phronesis.Base.CString.{Bytes, CString, codes, is_set, or_empty, strcmp_eq}
use phronesis.Path.Components.{names, no_dots}
use phronesis.Policy.Types.{Decision, deny, allow, prompt, Reason, PolicyResult, policy_result_set}
use phronesis.Policy.Env.{Env, policy_deny_all}
use phronesis.Policy.Workspace.{path_under_workspace}
use phronesis.Policy.Workspace.Containment.{path_under_workspace-names}
use phronesis.Policy.Sensitive.{path_is_sensitive}
use phronesis.Policy.Eval.{is, eval_path, policy_eval}

-- The decision that goes with each reason code.
abbrev pub decision_of : Reason → Decision
decision_of Reason.path_under_workspace_allow = allow
decision_of Reason.seat_board_allow = allow
decision_of Reason.model_start_allow = allow
decision_of Reason.shell_exec_allow = allow
decision_of Reason.pack_reloaded = allow
decision_of Reason.audio_fixture_allow = allow
decision_of Reason.high_risk_prompt = prompt
decision_of Reason.audio_listen_arm_prompt = prompt
decision_of _ = deny

abbrev pub IsConsistent : PolicyResult → Type 0
IsConsistent r = r.decision ≡ decision_of r.code

-- The code of a result determines its decision, on every branch of the table.
pub policy_eval-IsConsistent :
    (getenv : Env) (workspace tool action path : CString)
    → IsConsistent (policy_eval getenv workspace tool action path)
unfolding policy_eval eval_path
policy_eval-IsConsistent getenv workspace tool action path = ground arith

-- When the environment sets PHRONESIS_DENY_ALL to a true value, every evaluation denies, with the
-- code of that gate.
pub policy_eval_deny_all :
    (getenv : Env) (workspace tool action path : CString)
    → policy_deny_all getenv ≡ true
    → policy_eval getenv workspace tool action path ≡ policy_result_set deny Reason.deny_all
unfolding policy_eval
policy_eval_deny_all getenv workspace tool action path h = ground arith

-- What an allowed path rests on.
pub record IsContained (workspace path : CString) : Type 0 where
  pub root : Bytes
  pub target : Bytes
  pub is_root : workspace ≡ some root
  pub is_target : path ≡ some target
  pub below : (rest : List Bytes) × (names target ≡ names root ++ rest)
  pub clean : no_dots (names target) ≡ true
  pub harmless : path_is_sensitive path ≡ false

under-some :
    (workspace path : CString)
    → path_under_workspace workspace path ≡ true
    → (w : Bytes) × (p : Bytes) × (workspace ≡ some w) × (path ≡ some p)
unfolding path_under_workspace
under-some none path h = absurd (ground arith)
under-some (some w) none h = absurd (ground arith)
under-some (some w) (some p) h = (w, p, refl, refl)

contained :
    (workspace path : CString)
    → path_under_workspace workspace path ≡ true
    → path_is_sensitive path ≡ false
    → IsContained workspace path
contained workspace path h k =
    let (w, p, ew, ep) = under-some workspace path h in
    let (below, clean) = path_under_workspace-names w p (rw (ew, ep) at h) in
    record {
      root = w;
      target = p;
      is_root = ew;
      is_target = ep;
      below = below;
      clean = clean;
      harmless = k;
    }

eval_path_allow :
    (workspace : CString) (tool action : Bytes) (path : CString)
    → (eval_path workspace tool action path).decision ≡ allow
    → (path_under_workspace workspace path ≡ true)
      × (path_is_sensitive path ≡ false)
      × ((is action (codes "read")
            || is action (codes "write")
            || is tool (codes "shell") && is action (codes "exec"))
          ≡ true)
unfolding eval_path
eval_path_allow workspace tool action path h = ground arith

-- Apart from the seat and model tools, only reading, writing and running a shell are ever allowed,
-- and only for a path whose components begin with those of the workspace, with no component "." or
-- "..", that is not sensitive.
pub policy_eval-IsContained :
    (getenv : Env) (workspace tool action path : CString)
    → (policy_eval getenv workspace tool action path).decision ≡ allow
    → strcmp_eq (or_empty tool) (codes "seat") ≡ false
    → strcmp_eq (or_empty tool) (codes "model") ≡ false
    → IsContained workspace path
      × ((is (or_empty action) (codes "read")
            || is (or_empty action) (codes "write")
            || is (or_empty tool) (codes "shell") && is (or_empty action) (codes "exec"))
          ≡ true)
unfolding policy_eval
policy_eval-IsContained getenv workspace tool action path h s m =
    let (u, k, a) =
      eval_path_allow workspace (or_empty tool) (or_empty action) path (ground arith) in
    (contained workspace path u k, a)

eval_path_sensitive :
    (workspace : CString) (tool action : Bytes) (path : CString)
    → is_set path ≡ true
    → path_is_sensitive path ≡ true
    → (is action (codes "read")
        || is action (codes "write")
        || is action (codes "delete")
        || is action (codes "exec"))
      ≡ true
    → (eval_path workspace tool action path).decision ≡ deny
unfolding eval_path
eval_path_sensitive workspace tool action path h k a = ground arith

-- Reading, writing, deleting or executing a sensitive path is denied for every tool but the seat
-- and the model, wherever the path lies.
pub policy_eval_sensitive :
    (getenv : Env) (workspace tool action path : CString)
    → is_set path ≡ true
    → path_is_sensitive path ≡ true
    → (is (or_empty action) (codes "read")
        || is (or_empty action) (codes "write")
        || is (or_empty action) (codes "delete")
        || is (or_empty action) (codes "exec"))
      ≡ true
    → strcmp_eq (or_empty tool) (codes "seat") ≡ false
    → strcmp_eq (or_empty tool) (codes "model") ≡ false
    → (policy_eval getenv workspace tool action path).decision ≡ deny
unfolding policy_eval
policy_eval_sensitive getenv workspace tool action path h k a s m =
    ground (arith, eval_path_sensitive workspace (or_empty tool) (or_empty action) path)
