-- ===== src/Wire/Shell/ByPacks.antt =====
-- When the packs allow a shell command.
use phronesis.Base.{
  ℕ, ◌≡◌, ◌≢◌, refl, true, false, Option, none, some, [], ◌∷◌, arith, Bool-cases, Option-cases, inl,
  inr,
}
use phronesis.Base.CString.{Bytes, CString}
use phronesis.Policy.Types.{allow}
use phronesis.Policy.Env.{policy_deny_all}
use phronesis.Policy.Eval.Decisions.{IsContained}
use phronesis.World.{World, Os}
use phronesis.ActionLog.Last.{until_nul}
use phronesis.Supervisor.Types.{Supervisor}
use phronesis.Pack.Files.{System}
use phronesis.Pack.Compile.{Janet}
use phronesis.Pack.Load.{Packs, load_pack_once, with_files}
use phronesis.Pack.Compose.{
  Answer, host_denies, pack_says, read_decision_fields, entry_fns, compose_pack_entry,
}
use phronesis.Pack.Compose.Allowed.{AllAllow, compose_pack_entry-AllAllow}
use phronesis.Pack.View.{
  ShellView, Built, built, not_built, word_too_long, argv_too_long, Texts, build_shell_view,
}
use phronesis.Pack.Shell.{PackCodec, run_view, shell_pack}
use phronesis.Wire.Agents.{AgentId, workspace_for}
use phronesis.Wire.Checks.{read_agent, path_or_null}
use phronesis.Wire.Shell.{
  ShellCheck, Reply, decided, explained, stamped, passed, answer_bytes, pass_through,
}

-- A message that reads as allow.
abbrev pub ReadsAllow : PackCodec → Bytes → Type 0
ReadsAllow codec b = (code : ℕ) × (read_decision_fields codec.read_fields b ≡ some (1, code))

-- A denial that the codec writes does not read as allow.
abbrev pub DenialsDeny : PackCodec → Type 0
DenialsDeny codec =
    (answer : Answer) (b : Bytes) → codec.write_denial answer ≡ some b → ReadsAllow codec b → ⊥

abbrev pub IsAllow : PackCodec → Reply → Type 0
IsAllow codec (decided pr agent) = pr.decision ≡ allow
IsAllow codec (explained code reason agent) = ⊥
IsAllow codec (stamped decision code agent) = decision ≡ 1
IsAllow codec (passed b) = ReadsAllow codec b

module _ {V H : Type 0} (sys : System) (janet : Janet V H) (codec : PackCodec) where
  -- The state behind the building of the view.
  abbrev pub viewed : CString → CString → Texts → Packs V H → Packs V H
  viewed ws cwd argv st =
      let (ready, st1) = load_pack_once sys janet st in
      with_files sys janet (build_shell_view sys ws cwd argv st1.machine.files).1 st1

  -- The packs were run on the view of the command, and all of them allow it.
  pub record PacksAllow (ws cwd : CString) (argv : Texts) (st : Packs V H) : Type 0 where
    pub view : ShellView
    pub input : Bytes
    pub is_built :
        (build_shell_view sys ws cwd argv (load_pack_once sys janet st).1.machine.files).0
        ≡ built view
    pub is_written : codec.write_view view ≡ some input
    pub ready : (load_pack_once sys janet (viewed ws cwd argv st)).0 ≡ true
    pub some_fn :
        entry_fns sys janet codec.read_fields true
          (load_pack_once sys janet (viewed ws cwd argv st)).1.packs
        ≢ []
    pub all_allow :
        AllAllow sys janet codec.read_fields input
          (entry_fns sys janet codec.read_fields true
            (load_pack_once sys janet (viewed ws cwd argv st)).1.packs)
          (load_pack_once sys janet (viewed ws cwd argv st)).1.machine

  -- The decoded command is allowed by the path plane, and by the packs if it has a word.
  abbrev pub IsAllowed : Os → Supervisor → ShellCheck → World → Packs V H → Type 0
  IsAllowed os s sc w st =
      (policy_deny_all st.getenv ≡ false)
      × IsContained (workspace_for os s (read_agent sc.agent) w).0 (path_or_null (until_nul sc.cwd))
      × (sc.argv ≢ []
          → PacksAllow (workspace_for os s (read_agent sc.agent) w).0 (some (until_nul sc.cwd))
              sc.argv st)

  -- Only the bytes of a pack read as allow.
  pub answer_allows :
      (answer : Answer) (b : Bytes)
      → DenialsDeny codec
      → answer_bytes codec answer ≡ some b
      → ReadsAllow codec b
      → answer ≡ pack_says b
  answer_allows (pack_says c) b d e r = ground arith
  answer_allows (host_denies code reason) b d e r = absurd (d (host_denies code reason) b e r)

  pub passed_allows :
      (bytes : Option Bytes) (agent : AgentId)
      → IsAllow codec (pass_through bytes agent)
      → (b : Bytes) × (bytes ≡ some b) × ReadsAllow codec b
  passed_allows none agent h = absurd (ground arith)
  passed_allows (some []) agent h = absurd (ground arith)
  passed_allows (some (c ∷ b)) agent h = (c ∷ b, refl, h)

  run_view_allows :
      (ws cwd : CString) (argv : Texts) (st : Packs V H) (b : Bytes) (view : Built)
      → (build_shell_view sys ws cwd argv (load_pack_once sys janet st).1.machine.files).0 ≡ view
      → (run_view sys janet codec view (viewed ws cwd argv st)).0 ≡ pack_says b
      → ReadsAllow codec b
      → PacksAllow ws cwd argv st
  unfolding run_view
  run_view_allows ws cwd argv st b not_built v h r = absurd (ground arith)
  run_view_allows ws cwd argv st b word_too_long v h r = absurd (ground arith)
  run_view_allows ws cwd argv st b argv_too_long v h r = absurd (ground arith)
  run_view_allows ws cwd argv st b (built view) v h (code, r) =
      elim (Option-cases (codec.write_view view)) [
        | inl e ↦ absurd (ground arith)
        | inr (input, e) ↦
            let g : (compose_pack_entry sys janet codec.read_fields true input
                  (viewed ws cwd argv st)).0
                ≡ pack_says b =
              ground arith in
            let (ready, fn, all) =
              compose_pack_entry-AllAllow sys janet codec.read_fields true input b code
                (viewed ws cwd argv st) g r in
            record {
              view = view;
              input = input;
              is_built = v;
              is_written = e;
              ready = ready;
              some_fn = fn;
              all_allow = all;
            }
      ]

  pub shell_pack_allows :
      (ws cwd : CString) (argv : Texts) (st : Packs V H) (b : Bytes)
      → (shell_pack sys janet codec ws cwd argv st).0 ≡ pack_says b
      → ReadsAllow codec b
      → PacksAllow ws cwd argv st
  unfolding shell_pack
  shell_pack_allows ws cwd argv st b h r =
      let (ready, st1) = load_pack_once sys janet st in
      let (view, f) = build_shell_view sys ws cwd argv st1.machine.files in
      elim (Bool-cases ready) [
        | inr e ↦ absurd (ground arith)
        | inl e ↦ run_view_allows ws cwd argv st b view refl (ground arith) r
      ]
