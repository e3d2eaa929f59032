-- ===== src/Wire/Shell/Allowed.antt =====
-- When a shell command is allowed.
use phronesis.Base.{
  ◌≡◌, ◌≢◌, refl, Bool, true, false, not, Option, some, [], ◌∷◌, arith, length, leb, if◌then◌else◌,
  Bool-cases, Option-cases, inl, inr,
}
use mathlib.Core.Path.{subst}
use phronesis.Base.CString.{Bytes, CString, codes, strcmp_eq}
use phronesis.Policy.Types.{Decision, allow, PolicyResult, Reason, field_too_long}
use phronesis.Policy.Env.{policy_deny_all}
use phronesis.Policy.Eval.{policy_eval}
use phronesis.Policy.Eval.Decisions.{policy_eval-IsContained}
use phronesis.World.{World, Os}
use phronesis.ActionLog.Last.{until_nul}
use phronesis.Supervisor.Types.{Supervisor, path_max}
use phronesis.Pack.Files.{System}
use phronesis.Pack.Compile.{Janet}
use phronesis.Pack.Load.{Packs}
use phronesis.Pack.View.{Texts}
use phronesis.Pack.Shell.{shell_pack}
use phronesis.Wire.Agents.{AgentId, workspace_for}
use phronesis.Wire.Checks.{open_in, read_agent, path_or_null}
use phronesis.Wire.Shell.{
  ShellCheck, ShellCodec, decided, Served, answer_bytes, run_shell, is_allow, body_too_long,
  denied_as, serve, check_shell_decoded, check_shell,
}
use phronesis.Wire.Shell.ByPacks.{
  DenialsDeny, IsAllow, PacksAllow, IsAllowed, answer_allows, passed_allows, shell_pack_allows,
}

module _ {V H : Type 0} (sys : System) (janet : Janet V H) (codec : ShellCodec)
    (denials : DenialsDeny codec.packs) where
  run_shell_allows :
      (pr : PolicyResult) (agent : AgentId) (ws cwd : CString) (argv : Texts) (st : Packs V H)
      → IsAllow codec.packs (run_shell sys janet codec pr agent ws cwd argv st).0
      → argv ≢ []
      → PacksAllow sys janet codec.packs ws cwd argv st
  unfolding run_shell
  run_shell_allows pr agent ws cwd [] st h n = absurd (n refl)
  run_shell_allows pr agent ws cwd (t ∷ argv) st h n =
      let answer = (shell_pack sys janet codec.packs ws cwd (t ∷ argv) st).0 in
      let (b, e, r) =
        passed_allows sys janet codec.packs (answer_bytes codec.packs answer) agent h in
      shell_pack_allows sys janet codec.packs ws cwd (t ∷ argv) st b
        (answer_allows sys janet codec.packs answer b denials e r) r

  is_allow_lem : (d : Decision) → is_allow d ≡ true → d ≡ allow
  is_allow_lem Decision.deny h = cc
  is_allow_lem Decision.allow h = refl
  is_allow_lem Decision.prompt h = cc

  if_served :
      (b : Bool) (x y : Served V H) (P : Type 0)
      → (b ≡ true → IsAllow codec.packs x.reply → P)
      → (b ≡ false → IsAllow codec.packs y.reply → P)
      → IsAllow codec.packs (if b then x else y).reply
      → P
  if_served true x y P f g h = f refl h
  if_served false x y P f g h = g refl h

  plane_denies : (pr : PolicyResult) → not (is_allow pr.decision) ≡ true → pr.decision ≡ allow → ⊥
  plane_denies pr n a = ground arith

  check_shell_opened :
      (os : Os) (s : Supervisor) (body : Option Bytes) (sc : ShellCheck) (w : World)
      (st : Packs V H)
      → body_too_long body ≡ false
      → open_in codec.read_shell body ≡ some sc
      → check_shell sys janet codec os s body w st
        ≡ check_shell_decoded sys janet codec os s sc w st
  unfolding check_shell
  check_shell_opened os s body sc w st e n = rw (e, n) refl

  as_decoded :
      (os : Os) (s : Supervisor) (body : Option Bytes) (sc : ShellCheck) (w : World)
      (st : Packs V H)
      → body_too_long body ≡ false
      → open_in codec.read_shell body ≡ some sc
      → IsAllow codec.packs (check_shell sys janet codec os s body w st).reply
      → IsAllow codec.packs (check_shell_decoded sys janet codec os s sc w st).reply
  unfolding check_shell
  as_decoded os s body sc w st e n h =
      subst (λ (x : Served V H). IsAllow codec.packs x.reply)
        (check_shell_opened os s body sc w st e n) h

  decoded_allows :
      (os : Os) (s : Supervisor) (sc : ShellCheck) (w : World) (st : Packs V H)
      → IsAllow codec.packs (check_shell_decoded sys janet codec os s sc w st).reply
      → IsAllowed sys janet codec.packs os s sc w st
  unfolding check_shell_decoded
  decoded_allows os s sc w st h =
      let agent = read_agent sc.agent in
      let (ws, s', w') = workspace_for os s agent w in
      let cwd = until_nul sc.cwd in
      let pr =
        policy_eval st.getenv ws (some (codes "shell")) (some (codes "exec")) (path_or_null cwd) in
      let (reply, st') = run_shell sys janet codec pr agent ws (some cwd) sc.argv st in
      let served = serve sys janet codec reply s' w' st' in
      let by_plane =
        if not (is_allow pr.decision)
        then serve sys janet codec (decided pr agent) s' w' st
        else served in
      let by_length =
        if leb path_max (length sc.cwd)
        then serve sys janet codec (denied_as field_too_long agent) s' w' st
        else by_plane in
      if_served (policy_deny_all st.getenv)
        (serve sys janet codec (denied_as Reason.deny_all agent) s w st) by_length
        (IsAllowed sys janet codec.packs os s sc w st) (λ e r. absurd (ground arith))
        (λ e r.
          if_served (leb path_max (length sc.cwd))
            (serve sys janet codec (denied_as field_too_long agent) s' w' st) by_plane
            (IsAllowed sys janet codec.packs os s sc w st) (λ k q. absurd (ground arith))
            (λ k q.
              if_served (not (is_allow pr.decision))
                (serve sys janet codec (decided pr agent) s' w' st) served
                (IsAllowed sys janet codec.packs os s sc w st) (λ n a. absurd (plane_denies pr n a))
                (λ n a. (
                  e,
                  (policy_eval-IsContained st.getenv ws (some (codes "shell")) (some (codes "exec"))
                      (path_or_null cwd) (is_allow_lem pr.decision (ground arith))
                      (unfold strcmp_eq in refl) (unfold strcmp_eq in refl)).0,
                  run_shell_allows pr agent ws (some cwd) sc.argv st a,
                ))
                q)
            r)
        h

  -- A shell command is allowed only if the message decodes, the directory it runs in is contained in
  -- the workspace of its agent and not sensitive, and, where the command has a word, the packs are
  -- loaded, at least one of them checks commands, and each that does returns allow for the view of this
  -- command. The codec is one whose denials do not read as allow.
  pub check_shell-IsAllowed :
      (os : Os) (s : Supervisor) (body : Option Bytes) (w : World) (st : Packs V H)
      → IsAllow codec.packs (check_shell sys janet codec os s body w st).reply
      → (sc : ShellCheck) × (open_in codec.read_shell body ≡ some sc)
        × IsAllowed sys janet codec.packs os s sc w st
  unfolding check_shell
  check_shell-IsAllowed os s body w st h = elim (Bool-cases (body_too_long body)) [
    | inl e ↦ absurd (ground arith)
    | inr e ↦ elim (Option-cases (open_in codec.read_shell body)) [
      | inl n ↦ absurd (ground arith)
      | inr (sc, n) ↦ (sc, n, decoded_allows os s sc w st (as_decoded os s body sc w st e n h))
    ]
  ]
