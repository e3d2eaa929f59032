-- ===== src/Wire/Shell.antt =====
-- phronesis_check_shell, _check_audio and _reload_shell_pack of capnp_api.c, which call the packs.
pub mod ByPacks
pub mod Allowed
pub mod Audio
use phronesis.Base.{
  ℕ, ◌+◌, Bool, true, false, ◌||◌, ◌&&◌, not, Option, none, some, List, [], ◌∷◌, ◌++◌, leb, ltb,
  length, ◌==◌, if◌then◌else◌,
}
use phronesis.Base.CString.{Bytes, CString, codes, nonempty}
use phronesis.Base.Decimal.{print_ℕ}
use phronesis.Policy.Types.{
  Decision, deny, allow, prompt, Reason, invalid_message, field_too_long, pack_bad_result,
  audio_fixture_allow, pack_reloaded, pack_path_invalid, pack_load_failed, PolicyResult,
  policy_result_set,
}
use phronesis.Policy.Env.{Env, env_truthy, policy_deny_all}
use phronesis.Policy.Eval.{policy_eval}
use phronesis.World.{World, Os}
use phronesis.ActionLog.Last.{until_nul}
use phronesis.Supervisor.Types.{Supervisor, path_max}
use phronesis.Pack.Paths.{pack_spec_max}
use phronesis.Pack.Files.{System}
use phronesis.Pack.Compile.{Janet}
use phronesis.Pack.Load.{
  Packs, LoadResult, loaded_all, invalid, not_loaded, shell_pack_reload_internal,
}
use phronesis.Pack.Compose.{Answer, host_denies, pack_says, audio_pack, read_decision_fields}
use phronesis.Pack.View.{Texts}
use phronesis.Pack.Shell.{PackCodec, shell_pack}
use phronesis.Wire.Agents.{AgentId, workspace_for}
use phronesis.Wire.Checks.{max_body, open_in, zero_agent, read_agent, path_or_null}

pub record ShellCheck : Type 0 where
  pub agent : Option AgentId
  -- The text, which may hold a NUL.
  pub cwd : Bytes
  pub argv : Texts

pub record ShellCodec : Type 0 where
  pub packs : PackCodec
  pub read_shell : Bytes → Option ShellCheck
  -- The agent of an AudioCheck, and the path of a ReloadShellPack
  pub read_audio : Bytes → Option (Option AgentId)
  pub read_reload : Bytes → Option Bytes

-- What is sent: a decision with the agent that is echoed, a denial with a text for its reason, the
-- ordinals of a pack's decision and code with that agent, or the message of a pack as it is.
pub data Reply : Type 0 where
  decided : PolicyResult → AgentId → Reply
  explained : Reason → Bytes → AgentId → Reply
  stamped : ℕ → ℕ → AgentId → Reply
  passed : Bytes → Reply

pub record Served (V H : Type 0) : Type 0 where
  pub reply : Reply
  pub supervisor : Supervisor
  pub world : World
  pub packs : Packs V H

-- The message that an answer of the packs is, if it could be written.
abbrev pub answer_bytes : PackCodec → Answer → Option Bytes
answer_bytes codec (pack_says b) = some b
answer_bytes codec (host_denies code reason) = codec.write_denial (host_denies code reason)

abbrev pub denied_as : Reason → AgentId → Reply
denied_as code agent = decided (policy_result_set deny code) agent

-- pack_out && pack_len
abbrev pub pass_through : Option Bytes → AgentId → Reply
pass_through none agent = denied_as pack_bad_result agent
pass_through (some []) agent = denied_as pack_bad_result agent
pass_through (some (c ∷ b)) agent = passed (c ∷ b)

abbrev pub is_allow : Decision → Bool
is_allow allow = true
is_allow _ = false

-- in_rc == -2
abbrev pub body_too_long : Option Bytes → Bool
body_too_long none = false
body_too_long (some body) = ltb max_body (length body)

module _ {V H : Type 0} (sys : System) (janet : Janet V H) (codec : ShellCodec) where
  abbrev pub serve : Reply → Supervisor → World → Packs V H → Served V H
  serve r s w st = record { reply = r; supervisor = s; world = w; packs = st }

  -- Behind the path plane: a command with no word is decided there.
  unfoldable pub run_shell :
      PolicyResult → AgentId → CString → CString → Texts → Packs V H → Reply × Packs V H
  unfolding shell_pack
  run_shell pr agent ws cwd [] st = (decided pr agent, st)
  run_shell pr agent ws cwd (t ∷ argv) st =
      let (answer, st') = shell_pack sys janet codec.packs ws cwd (t ∷ argv) st in
      (pass_through (answer_bytes codec.packs answer) agent, st')

  unfoldable pub check_shell_decoded : Os → Supervisor → ShellCheck → World → Packs V H → Served V H
  unfolding policy_deny_all workspace_for policy_eval until_nul run_shell
  check_shell_decoded os s sc w st =
      let agent = read_agent sc.agent in
      let (ws, s', w') = workspace_for os s agent w in
      let cwd = until_nul sc.cwd in
      let pr =
        policy_eval st.getenv ws (some (codes "shell")) (some (codes "exec")) (path_or_null cwd) in
      let (reply, st') = run_shell pr agent ws (some cwd) sc.argv st in
      if policy_deny_all st.getenv
      then serve (denied_as Reason.deny_all agent) s w st
      else if leb path_max (length sc.cwd)
      then serve (denied_as field_too_long agent) s' w' st
      else if not (is_allow pr.decision)
      then serve (decided pr agent) s' w' st
      else serve reply s' w' st'

  unfoldable pub check_shell : Os → Supervisor → Option Bytes → World → Packs V H → Served V H
  unfolding check_shell_decoded print_ℕ
  check_shell os s body w st =
      if body_too_long body
      then serve
          (explained field_too_long
            (codes "command body exceeds " ++ (print_ℕ max_body ++ codes " bytes")) zero_agent)
          s w st
      else elim (open_in codec.read_shell body) [
        | none ↦ serve (denied_as invalid_message zero_agent) s w st
        | some sc ↦ check_shell_decoded os s sc w st
      ]

  -- policy_result_from_capnp, and the denial when there is no result.
  abbrev pub restamped : Option Bytes → AgentId → Reply
  restamped none agent = denied_as pack_bad_result agent
  restamped (some b) agent = elim (read_decision_fields codec.packs.read_fields b) [
    | none ↦ denied_as pack_bad_result agent
    | some (decision, code) ↦ stamped decision code agent
  ]

  -- Behind the decoding; the packs get the message as it came.
  unfoldable pub check_audio_decoded :
      Supervisor → Bytes → Option AgentId → World → Packs V H → Served V H
  unfolding policy_deny_all env_truthy audio_pack
  check_audio_decoded s input id w st =
      let agent = read_agent id in
      let (answer, st') = audio_pack sys janet codec.packs.read_fields input st in
      if policy_deny_all st.getenv
      then serve (denied_as Reason.deny_all agent) s w st
      else if env_truthy st.getenv (codes "PHRONESIS_AUDIO_ALLOW")
      then serve (decided (policy_result_set allow audio_fixture_allow) agent) s w st
      else serve (restamped (answer_bytes codec.packs answer) agent) s w st'

  unfoldable pub check_audio : Supervisor → Option Bytes → World → Packs V H → Served V H
  unfolding check_audio_decoded
  check_audio s body w st = elim (open_in codec.read_audio body) [
    | none ↦ serve (denied_as invalid_message zero_agent) s w st
    | some id ↦ check_audio_decoded s (elim body [ none ↦ [] | some b ↦ b ]) id w st
  ]

  abbrev pub reload_result : LoadResult → PolicyResult
  reload_result loaded_all = policy_result_set allow pack_reloaded
  reload_result invalid = policy_result_set deny pack_path_invalid
  reload_result not_loaded = policy_result_set deny pack_load_failed

  -- The agent stays zero.
  unfoldable pub reload_shell_pack : Supervisor → Option Bytes → World → Packs V H → Served V H
  unfolding policy_deny_all until_nul shell_pack_reload_internal
  reload_shell_pack s body w st = elim (open_in codec.read_reload body) [
    | none ↦ serve (denied_as invalid_message zero_agent) s w st
    | some path ↦
        let (r, st') = shell_pack_reload_internal sys janet (some (until_nul path)) st in
        if not (nonempty path) || leb pack_spec_max (length path)
        then serve (denied_as pack_path_invalid zero_agent) s w st
        else if policy_deny_all st.getenv
        then serve (denied_as Reason.deny_all zero_agent) s w st
        else serve (decided (reload_result r) zero_agent) s w st'
  ]
