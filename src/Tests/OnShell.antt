-- ===== src/Tests/OnShell.antt =====
-- A shell command that the packs of OnPacks allow.
use phronesis.Supervisor.Lifecycle.Acquire.{reap_at}
use phronesis.Supervisor.Open.{new_supervisor}
use phronesis.Supervisor.Slots.{load_agent}
use phronesis.ActionLog.Escape.{hex_digit}
use phronesis.Supervisor.Ids.{valid_id}
use phronesis.Supervisor.Lifecycle.Status.{supervisor_status}
use phronesis.Wire.Agents.{agent_id_to_hex}
use phronesis.Policy.Workspace.{path_under_workspace, is_clean_abs_path}
use phronesis.Policy.Sensitive.{
  path_is_sensitive, sensitive_path, sensitive_base, base_name, sensitive_component,
  sensitive_extension,
}
use phronesis.Policy.Eval.{eval_path}
use phronesis.Wire.Agents.{AgentId}
use phronesis.Policy.Env.{env_truthy, policy_deny_all}
use phronesis.Pack.Load.{Packs}
use phronesis.Wire.Shell.Audio.{AudioPacksAllow, check_audio-IsAllowed}
use phronesis.Base.{ℕ, true, false, ◌⊎◌, ◌≡◌, some, none, [], ◌∷◌, refl, Option}
use phronesis.Base.CString.{Bytes, codes, strcmp_eq, starts_with, strstr}
use phronesis.Pack.Shell.{PackCodec}
use phronesis.Wire.Checks.{open_in}
use phronesis.Wire.Shell.{ShellCheck, ShellCodec, check_shell, check_audio}
use phronesis.Wire.Shell.ByPacks.{DenialsDeny, IsAllowed}
use phronesis.Wire.Shell.Allowed.{check_shell-IsAllowed}
use phronesis.Tests.Machine.{quiet, empty_world}
use phronesis.Tests.OnWire.{agent, seated}
use phronesis.Tests.OnPacks.{system, interpreter, two_packs, reader}

-- Denials are not written at all.
abbrev pack_codec : PackCodec
pack_codec = record {
  write_view = λ view. some (codes "view");
  write_denial = λ answer. none;
  read_fields = reader;
}

abbrev command : ShellCheck
command = record { agent = some agent; cwd = codes "/w/src"; argv = some (codes "ls") ∷ [] }

abbrev shell_codec : ShellCodec
shell_codec = record {
  packs = pack_codec;
  read_shell = λ body. some command;
  read_audio = λ body. some (some agent);
  read_reload = λ body. none;
}

denials : DenialsDeny pack_codec
denials answer b h = absurd (none_some b h)
  where
    none_some : (b : Bytes) → ◌≡◌ {A = Option Bytes} none (some b) → ⊥
    none_some b h = cc

check_shell-IsAllowed_example :
    (sc : ShellCheck) × (open_in shell_codec.read_shell (some (codes "m")) ≡ some sc)
    × IsAllowed system interpreter pack_codec quiet seated sc empty_world two_packs
unfolding check_shell strcmp_eq eval_path path_is_sensitive sensitive_path sensitive_base base_name
    starts_with sensitive_component strstr sensitive_extension path_under_workspace agent_id_to_hex
    supervisor_status valid_id hex_digit load_agent new_supervisor reap_at is_clean_abs_path
check_shell-IsAllowed_example =
    check_shell-IsAllowed system interpreter shell_codec denials quiet seated (some (codes "m"))
      empty_world two_packs (20, refl)

abbrev audio_packs : Packs ℕ ℕ
audio_packs = record two_packs {
  packs =
      record { entries = record { shell = none; audio = some 4 }; path = codes "/d/a.janet" } ∷ [];
}

check_audio-IsAllowed_example :
    (id : Option AgentId) × (open_in shell_codec.read_audio (some (codes "m")) ≡ some id)
    × (policy_deny_all audio_packs.getenv ≡ false)
    × ((env_truthy audio_packs.getenv (codes "PHRONESIS_AUDIO_ALLOW") ≡ true)
        ⊎ AudioPacksAllow system interpreter shell_codec (codes "m") audio_packs)
unfolding check_audio strcmp_eq
check_audio-IsAllowed_example =
    check_audio-IsAllowed system interpreter shell_codec denials seated (codes "m") empty_world
      audio_packs refl
