-- ===== src/Wire/Emit/Decided.antt =====
-- Shell checks are answered by the host itself or with the bytes of a pack.
use phronesis.Base.{
  ◌≡◌, refl, Bool, true, false, not, Option, none, some, [], ◌∷◌, length, leb, if◌then◌else◌,
}
use phronesis.Base.CString.{Bytes, CString, codes}
use phronesis.Policy.Types.{PolicyResult}
use phronesis.Policy.Env.{policy_deny_all}
use phronesis.Policy.Eval.{policy_eval}
use phronesis.World.{World, Os}
use phronesis.ActionLog.Last.{until_nul}
use phronesis.Supervisor.Types.{Supervisor, path_max}
use phronesis.Pack.Files.{System}
use phronesis.Pack.Compile.{Janet}
use phronesis.Pack.Load.{Packs}
use phronesis.Pack.View.{Texts}
use phronesis.Pack.Shell.{shell_pack}
use phronesis.Wire.Agents.{AgentId, workspace_for}
use phronesis.Wire.Checks.{open_in, read_agent, path_or_null}
use phronesis.Wire.Shell.{
  ShellCheck, ShellCodec, Served, answer_bytes, pass_through, run_shell, body_too_long, is_allow,
  check_shell_decoded, check_shell,
}
use phronesis.Wire.Emit.Reads.{IsDecided}

pass_through-IsDecided :
    (bytes : Option Bytes) (agent : AgentId) → IsDecided (pass_through bytes agent)
pass_through-IsDecided none agent = tt
pass_through-IsDecided (some []) agent = tt
pass_through-IsDecided (some (c ∷ b)) agent = tt

module _ {V H : Type 0} (sys : System) (janet : Janet V H) (codec : ShellCodec) where
  if-IsDecided :
      (b : Bool) (x y : Served V H)
      → IsDecided x.reply
      → IsDecided y.reply
      → IsDecided (if b then x else y).reply
  if-IsDecided true x y p q = p
  if-IsDecided false x y p q = q

  run_shell-IsDecided :
      (pr : PolicyResult) (agent : AgentId) (ws cwd : CString) (argv : Texts) (st : Packs V H)
      → IsDecided (run_shell sys janet codec pr agent ws cwd argv st).0
  unfolding run_shell
  run_shell-IsDecided pr agent ws cwd [] st = tt
  run_shell-IsDecided pr agent ws cwd (t ∷ argv) st =
      pass_through-IsDecided
        (answer_bytes codec.packs (shell_pack sys janet codec.packs ws cwd (t ∷ argv) st).0) agent

  decoded-IsDecided :
      (os : Os) (s : Supervisor) (sc : ShellCheck) (w : World) (st : Packs V H)
      → IsDecided (check_shell_decoded sys janet codec os s sc w st).reply
  unfolding check_shell_decoded
  decoded-IsDecided os s sc w st =
      let agent = read_agent sc.agent in
      let (ws, s', w') = workspace_for os s agent w in
      let cwd = until_nul sc.cwd in
      let pr =
        policy_eval st.getenv ws (some (codes "shell")) (some (codes "exec")) (path_or_null cwd) in
      if-IsDecided (policy_deny_all st.getenv) _ _ _ (
        if-IsDecided (leb path_max (length sc.cwd)) _ _ _ (
          if-IsDecided (not (is_allow pr.decision)) _ _ _
            (run_shell-IsDecided pr agent ws (some cwd) sc.argv st)))

  opened-IsDecided :
      (os : Os) (s : Supervisor) (body : Option Bytes) (w : World) (st : Packs V H)
      (sc : Option ShellCheck)
      → open_in codec.read_shell body ≡ sc
      → IsDecided (check_shell sys janet codec os s body w st).reply
  unfolding check_shell
  opened-IsDecided os s body w st none e = if-IsDecided (body_too_long body) _ _ _ (rw e tt)
  opened-IsDecided os s body w st (some sc) e =
      if-IsDecided (body_too_long body) _ _ _ (rw e (decoded-IsDecided os s sc w st))

  pub check_shell-IsDecided :
      (os : Os) (s : Supervisor) (body : Option Bytes) (w : World) (st : Packs V H)
      → IsDecided (check_shell sys janet codec os s body w st).reply
  check_shell-IsDecided os s body w st =
      opened-IsDecided os s body w st (open_in codec.read_shell body) refl
