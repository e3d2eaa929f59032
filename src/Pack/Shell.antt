-- ===== src/Pack/Shell.antt =====
-- phronesis_shell_pack of policy_janet.c.
use phronesis.Base.{true, not, Option, none, some, [], ◌++◌, if◌then◌else◌}
use phronesis.Base.CString.{Bytes, CString, codes}
use phronesis.Base.Decimal.{print_ℕ}
use phronesis.Policy.Types.{field_too_long, pack_missing, shell_view_build_failed}
use phronesis.Pack.Files.{System}
use phronesis.Pack.Compile.{Janet}
use phronesis.Pack.Load.{Packs, load_pack_once, with_files}
use phronesis.Pack.Compose.{Answer, host_denies, FieldReader, compose_pack_entry}
use phronesis.Pack.View.{
  ShellView, Built, built, not_built, word_too_long, argv_too_long, Texts, shell_word_max,
  shell_argv_max, build_shell_view,
}

-- What the codec does with the messages between the host and the packs: the bytes of a view and of a
-- denial with a code and a reason, and the decision and code that bytes hold.
pub record PackCodec : Type 0 where
  pub write_view : ShellView → Option Bytes
  pub write_denial : Answer → Option Bytes
  pub read_fields : FieldReader

module _ {V H : Type 0} (sys : System) (janet : Janet V H) (codec : PackCodec) where
  -- What follows the building of the view.
  unfoldable pub run_view : Built → Packs V H → Answer × Packs V H
  unfolding compose_pack_entry print_ℕ
  run_view word_too_long st = (
    host_denies field_too_long
        (codes "argv word exceeds " ++ (print_ℕ shell_word_max ++ codes " bytes")),
    st,
  )
  run_view argv_too_long st =
      (host_denies field_too_long (codes "argv count exceeds " ++ print_ℕ shell_argv_max), st)
  run_view not_built st = (host_denies shell_view_build_failed [], st)
  run_view (built view) st = elim (codec.write_view view) [
    | none ↦ (host_denies shell_view_build_failed [], st)
    | some input ↦ compose_pack_entry sys janet codec.read_fields true input st
  ]

  unfoldable pub shell_pack : CString → CString → Texts → Packs V H → Answer × Packs V H
  unfolding load_pack_once build_shell_view run_view
  shell_pack workspace cwd argv st =
      let (ready, st1) = load_pack_once sys janet st in
      let (view, f) = build_shell_view sys workspace cwd argv st1.machine.files in
      if not ready
      then (host_denies pack_missing [], st1)
      else run_view view (with_files sys janet f st1)
