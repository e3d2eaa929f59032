-- ===== src/Wire/Shell/Audio.antt =====
-- When an audio check is allowed.
use phronesis.Base.{
  ◌≡◌, ◌≢◌, refl, Bool, true, false, Option, none, some, [], arith, if◌then◌else◌, ◌⊎◌,
  Option-cases, inl, inr,
}
use mathlib.Core.Path.{subst}
use phronesis.Base.CString.{Bytes, codes}
use phronesis.Policy.Types.{Reason, allow, audio_fixture_allow, policy_result_set}
use phronesis.Policy.Env.{env_truthy, policy_deny_all}
use phronesis.World.{World}
use phronesis.Supervisor.Types.{Supervisor}
use phronesis.Pack.Files.{System}
use phronesis.Pack.Compile.{Janet}
use phronesis.Pack.Load.{Packs, load_pack_once}
use phronesis.Pack.Compose.{read_decision_fields, entry_fns, audio_pack}
use phronesis.Pack.Compose.Allowed.{AllAllow, compose_pack_entry-AllAllow}
use phronesis.Wire.Agents.{AgentId}
use phronesis.Wire.Checks.{open_in, read_agent}
use phronesis.Wire.Shell.{
  ShellCodec, Served, answer_bytes, restamped, denied_as, decided, serve, check_audio_decoded,
  check_audio,
}
use phronesis.Wire.Shell.ByPacks.{ReadsAllow, DenialsDeny, IsAllow, answer_allows}

module _ {V H : Type 0} (sys : System) (janet : Janet V H) (codec : ShellCodec) where
  -- The packs are loaded, at least one of them checks audio, and each that does returns allow for the
  -- message.
  abbrev pub AudioPacksAllow : Bytes → Packs V H → Type 0
  AudioPacksAllow input st =
      let (ready, st') = load_pack_once sys janet st in
      let fns = entry_fns sys janet codec.packs.read_fields false st'.packs in
      (ready ≡ true) × (fns ≢ []) × AllAllow sys janet codec.packs.read_fields input fns st'.machine

  restamped_allows :
      (bytes : Option Bytes) (agent : AgentId)
      → IsAllow codec.packs (restamped sys janet codec bytes agent)
      → (b : Bytes) × (bytes ≡ some b) × ReadsAllow codec.packs b
  restamped_allows none agent h = absurd (ground arith)
  restamped_allows (some b) agent h =
      elim (Option-cases (read_decision_fields codec.packs.read_fields b)) [
        | inl e ↦ absurd (ground arith)
        | inr ((decision, code), e) ↦ (b, refl, (code, ground arith))
      ]

  if_allowed :
      (b : Bool) (x y : Served V H) (P : Type 0)
      → (b ≡ true → IsAllow codec.packs x.reply → P)
      → (b ≡ false → IsAllow codec.packs y.reply → P)
      → IsAllow codec.packs (if b then x else y).reply
      → P
  if_allowed true x y P f g h = f refl h
  if_allowed false x y P f g h = g refl h

  module _ (denials : DenialsDeny codec.packs) where
    audio_pack_allows :
        (input : Bytes) (st : Packs V H) (agent : AgentId)
        → IsAllow codec.packs (
            restamped sys janet codec
              (answer_bytes codec.packs (audio_pack sys janet codec.packs.read_fields input st).0)
              agent)
        → AudioPacksAllow input st
    unfolding audio_pack
    audio_pack_allows input st agent h =
        let answer = (audio_pack sys janet codec.packs.read_fields input st).0 in
        let (b, e, (code, r)) = restamped_allows (answer_bytes codec.packs answer) agent h in
        compose_pack_entry-AllAllow sys janet codec.packs.read_fields false input b code st
          (answer_allows sys janet codec.packs answer b denials e (code, r)) r

    decoded_allows :
        (s : Supervisor) (input : Bytes) (id : Option AgentId) (w : World) (st : Packs V H)
        → IsAllow codec.packs (check_audio_decoded sys janet codec s input id w st).reply
        → (policy_deny_all st.getenv ≡ false)
          × ((env_truthy st.getenv (codes "PHRONESIS_AUDIO_ALLOW") ≡ true)
              ⊎ AudioPacksAllow input st)
    unfolding check_audio_decoded
    decoded_allows s input id w st h =
        let agent = read_agent id in
        let (answer, st') = audio_pack sys janet codec.packs.read_fields input st in
        let by_env =
          serve sys janet codec (decided (policy_result_set allow audio_fixture_allow) agent) s w
            st in
        let by_packs =
          serve sys janet codec (restamped sys janet codec (answer_bytes codec.packs answer) agent)
            s w st' in
        let open_to_env = env_truthy st.getenv (codes "PHRONESIS_AUDIO_ALLOW") in
        let behind = if open_to_env then by_env else by_packs in
        if_allowed (policy_deny_all st.getenv)
          (serve sys janet codec (denied_as Reason.deny_all agent) s w st) behind
          ((policy_deny_all st.getenv ≡ false) × ((open_to_env ≡ true) ⊎ AudioPacksAllow input st))
          (λ e r. absurd (ground arith))
          (λ e r. (
            e,
            if_allowed open_to_env by_env by_packs ((open_to_env ≡ true) ⊎ AudioPacksAllow input st)
                (λ t q. inl t) (λ t q. inr (audio_pack_allows input st agent q)) r,
          ))
          h

    audio_opened :
        (s : Supervisor) (body : Bytes) (w : World) (st : Packs V H) (id : Option AgentId)
        → open_in codec.read_audio (some body) ≡ some id
        → check_audio sys janet codec s (some body) w st
          ≡ check_audio_decoded sys janet codec s body id w st
    unfolding check_audio
    audio_opened s body w st id e = rw (e, check_audio) refl

    -- An audio check is allowed only if the message decodes, PHRONESIS_DENY_ALL is not set to a true
    -- value, and either PHRONESIS_AUDIO_ALLOW is, or the packs are loaded, at least one of them checks
    -- audio, and each that does returns allow for this message. The codec is one whose denials do not
    -- read as allow.
    pub check_audio-IsAllowed :
        (s : Supervisor) (body : Bytes) (w : World) (st : Packs V H)
        → IsAllow codec.packs (check_audio sys janet codec s (some body) w st).reply
        → (id : Option AgentId) × (open_in codec.read_audio (some body) ≡ some id)
          × (policy_deny_all st.getenv ≡ false)
          × ((env_truthy st.getenv (codes "PHRONESIS_AUDIO_ALLOW") ≡ true)
              ⊎ AudioPacksAllow body st)
    unfolding check_audio
    check_audio-IsAllowed s body w st h =
        elim (Option-cases (open_in codec.read_audio (some body))) [
          | inl e ↦ absurd (ground arith)
          | inr (id, e) ↦
              let (open_, allowed) = decoded_allows s body id w st (
                subst (λ (x : Served V H). IsAllow codec.packs x.reply)
                  (audio_opened s body w st id e) h) in
              (id, e, open_, allowed)
        ]
