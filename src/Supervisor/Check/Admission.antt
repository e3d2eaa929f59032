-- ===== src/Supervisor/Check/Admission.antt =====
-- Where the result of phronesis_policy_check comes from.
use phronesis.Base.{
  ◌≡◌, ◌≢◌, Bool, ap, ◌∙◌, refl, ◌⊎◌, inl, inr, true, false, if◌then◌else◌, ◌&&◌, not, none, some,
  arith, Bool-cases, Option-cases,
}
use phronesis.Base.CString.{CString, is_set, or_empty, nonempty}
use phronesis.Policy.Types.{
  ok, err_notfound, err_inval, deny, PolicyResult, policy_result_set, Reason,
}
use phronesis.Policy.Env.{Env, policy_deny_all}
use phronesis.Policy.Eval.{policy_eval}
use phronesis.Policy.Eval.Decisions.{policy_eval_deny_all}
use phronesis.World.{World, Os}
use phronesis.Supervisor.Types.{Supervisor, is_running, slot_at}
use phronesis.Supervisor.Ids.{valid_id}
use phronesis.Supervisor.Slots.{Loaded, loaded, not_loaded, load_agent}
use phronesis.Supervisor.Lifecycle.Status.{
  AgentStatus, status_loaded, StatusResult, status, no_status, admit, supervisor_status,
  require_running_agent,
}
use phronesis.Supervisor.Check.{
  log_decision, check_eval, check_loaded, check_agent, check_admitted, needs_agent, policy_check,
  workspace_at,
}
use phronesis.Supervisor.SlotFile.{write_slot}
use phronesis.Supervisor.Lifecycle.Acquire.{reap_at}

valid_id-set : (agent_id : CString) → valid_id agent_id ≡ true → is_set agent_id ≡ true
unfolding valid_id
valid_id-set none h = absurd (ground arith)
valid_id-set (some id) h = ground arith

-- The workspace that a status reports, or NULL.
unfoldable pub reported : StatusResult → CString
reported (no_status rc) = none
reported (status st) = if nonempty st.workspace then some st.workspace else none

module _ (os : Os) (getenv : Env) (agent_id tool action path : CString) where
  check_eval-result :
      (s : Supervisor) (ws : CString) (w : World) (r : PolicyResult)
      → (check_eval os getenv s agent_id ws tool action path w).0 ≡ (ok, some r)
      → r ≡ policy_eval getenv ws tool action path
  unfolding check_eval log_decision
  check_eval-result s ws w r h = ground arith

  check_loaded-result :
      (l : Loaded) (s : Supervisor) (w : World) (r : PolicyResult)
      → (check_loaded os getenv l s agent_id tool action path w).0 ≡ (ok, some r)
      → r ≡ policy_eval getenv (reported (status_loaded os l s w).0) tool action path
  unfolding check_loaded status_loaded reported
  check_loaded-result (loaded i) s w r h =
      let (s', w') = reap_at os s i w in
      check_eval-result s' (workspace_at s' i) (write_slot os s' (slot_at s' i) w').1 r h
  check_loaded-result (not_loaded err_notfound) s w r h = check_eval-result s none w r h
  check_loaded-result (not_loaded ok) s w r h = absurd (ground arith)
  check_loaded-result (not_loaded err_inval) s w r h = absurd (ground arith)
  check_loaded-result (not_loaded _) s w r h = absurd (ground arith)

  -- The workspace is the one that the agent's status, asked for instead, would report.
  check_agent-result :
      (s : Supervisor) (w : World) (r : PolicyResult)
      → (check_agent os getenv s agent_id tool action path w).0 ≡ (ok, some r)
      → r ≡ policy_eval getenv (reported (supervisor_status os s agent_id w).0) tool action path
  unfolding check_agent supervisor_status
  check_agent-result s w r h = elim (Bool-cases (valid_id agent_id)) [
    | inl v ↦
        let (l, s', w') = load_agent os s (or_empty agent_id) w in
        let set : is_set agent_id ≡ true = valid_id-set agent_id v in
        rw v (check_loaded-result l s' w' r (rw (set, v) at h))
    | inr v ↦ elim (Bool-cases (is_set agent_id)) [
      | inl e ↦ absurd (ground arith)
      | inr e ↦ rw v (unfold reported in check_eval-result s none w r (rw e at h))
    ]
  ]

-- The decision of the table for the workspace that the agent's status reports.
abbrev pub decided :
    Os → Env → CString → CString → CString → CString → Supervisor → World → PolicyResult
decided os getenv agent_id tool action path s w =
    policy_eval getenv (reported (supervisor_status os s agent_id w).0) tool action path

abbrev pub asks_agent : Env → CString → Bool
asks_agent getenv tool = not (policy_deny_all getenv) && needs_agent tool

-- A result that a check returns is the decision of the table for the workspace that the agent's
-- status reports, or for none if it reports no workspace or an error. For a tool that needs an
-- agent, unless everything is denied, it is so only behind a test that has admitted the agent, and
-- the status is asked for there; a refused agent gives the denial with the code of that test.
pub policy_check-result :
    (os : Os) (getenv : Env) (s : Supervisor) (agent_id tool action path : CString) (w : World)
    (r : PolicyResult)
    → (policy_check os getenv s agent_id tool action path w).0 ≡ (ok, some r)
    → let (refusal, s', w') = require_running_agent os s agent_id w in
      ((asks_agent getenv tool ≡ false) × (r ≡ decided os getenv agent_id tool action path s w))
      ⊎ ((asks_agent getenv tool ≡ true)
          × (refusal ≡ none)
          × (r ≡ decided os getenv agent_id tool action path s' w'))
      ⊎ ((asks_agent getenv tool ≡ true)
          × (code : Reason) × (refusal ≡ some code)
          × (r ≡ policy_result_set deny code))
unfolding policy_check check_admitted log_decision
policy_check-result os getenv s a t c p w r h =
    elim (Bool-cases (not (policy_deny_all getenv) && needs_agent t)) [
      | inr e ↦ inl (e, check_agent-result os getenv a t c p s w r (rw e at h))
      | inl e ↦ elim (Option-cases (require_running_agent os s a w).0) [
        | inl n ↦ inr (inl (e, n, check_agent-result os getenv a t c p _ _ r (rw (e, n) at h)))
        | inr (code, n) ↦ inr (inr (e, code, n, ground arith))
      ]
    ]

pub admit-running :
    (r : StatusResult)
    → admit r ≡ none
    → (st : AgentStatus) × (r ≡ status st) × (is_running st.state ≡ true)
unfolding admit
admit-running (no_status rc) h = absurd (ground arith)
admit-running (status st) h = (st, refl, ground arith)

-- When a check for a tool that needs an agent returns a result that does not deny, the agent's
-- status, asked for at the start of the check, is running.
pub policy_check_admits :
    (os : Os) (getenv : Env) (s : Supervisor) (agent_id tool action path : CString) (w : World)
    (r : PolicyResult)
    → needs_agent tool ≡ true
    → (policy_check os getenv s agent_id tool action path w).0 ≡ (ok, some r)
    → r.decision ≢ deny
    → (st : AgentStatus) × ((supervisor_status os s agent_id w).0 ≡ status st)
      × (is_running st.state ≡ true)
unfolding policy_check check_admitted log_decision
policy_check_admits os getenv s a t c p w r n h d = elim (Bool-cases (policy_deny_all getenv)) [
  | inl e ↦
      let result = check_agent-result os getenv a t c p s w r (rw e at h) in
      absurd
        (d (ap (λ (q : PolicyResult). q.decision) (result ∙ policy_eval_deny_all getenv _ t c p e)))
  | inr e ↦ elim (Option-cases (require_running_agent os s a w).0) [
    | inl m ↦ admit-running _ (admitted m)
    | inr (code, m) ↦ absurd (d (ground arith))
  ]
]
  where
    admitted :
        (require_running_agent os s a w).0 ≡ none → admit (supervisor_status os s a w).0 ≡ none
    admitted m = unfold require_running_agent in ground arith
