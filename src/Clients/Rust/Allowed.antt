-- ===== src/Clients/Rust/Allowed.antt =====
-- What an allow that the Rust crate receives says of the command.
use phronesis.Base.{ℕ, ◌≡◌, refl, ◌<◌, ◌^◌, Bool, Option, some, List, [], ◌∷◌, arith, length}
use mathlib.Core.Path.{subst}
use phronesis.Base.CString.{Bytes, CString, or_empty}
use phronesis.World.{World, Os}
use phronesis.Supervisor.Types.{Supervisor}
use phronesis.Pack.Files.{System}
use phronesis.Pack.Compile.{Janet}
use phronesis.Pack.Load.{Packs}
use phronesis.Wire.Checks.{open_in}
use phronesis.Wire.Shell.{ShellCheck, ShellCodec, check_shell}
use phronesis.Wire.Shell.ByPacks.{IsAllow, ReadsAllow, IsAllowed}
use phronesis.Wire.Shell.Allowed.{check_shell-IsAllowed}
use phronesis.Wire.Message.{Written, written, not_written, endless}
use phronesis.Wire.Message.Held.{if_written}
use phronesis.Wire.Message.{Writer}
use phronesis.Wire.Emit.{PolicyDecision, reply_message, with_denials}
use phronesis.Wire.Emit.Reads.{ReadsFields, host_message_denies, reply_message_allows}
use phronesis.Wire.Emit.Decided.{check_shell-IsDecided}
use phronesis.Clients.Message.{write_encoded, write_encoded-held}
use phronesis.Clients.Encode.{
  ShellMessage, ReadsShell, AllShort, asked, shell_message, shell_message-asked,
}
use phronesis.Clients.Rust.{rust_agent, filled, encoded, ask_check, ljos_phronesis_check_shell}

filled_written : (r : Written) (b : Bytes) → filled r ≡ written b → r ≡ written b
filled_written (written []) b h = absurd (ground arith)
filled_written (written (c ∷ a)) b h = h
filled_written not_written b h = h
filled_written endless b h = h

open_in-read :
    {M : Type 0} (read : Bytes → Option M) (body : Bytes) (m : M)
    → open_in read (some body) ≡ some m
    → read body ≡ some m
open_in-read read body m h = ground arith

module _ {V H : Type 0} (sys : System) (janet : Janet V H) (codec : ShellCodec) (mem : ℕ → Bool)
    (decisions : Writer PolicyDecision) (shells : Writer ShellMessage)
    (fields : ReadsFields decisions codec.packs.read_fields)
    (reads : ReadsShell shells codec.read_shell) where
  abbrev library_codec : ShellCodec
  library_codec = with_denials mem decisions codec

  served_allows :
      (os : Os) (s : Supervisor) (body : Bytes) (w : World) (st : Packs V H) (b : Bytes)
      → (sc : ShellCheck) → codec.read_shell body ≡ some sc
      → filled (
          reply_message mem decisions
            (check_shell sys janet library_codec os s (some body) w st).reply)
        ≡ written b
      → ReadsAllow codec.packs b
      → IsAllowed sys janet library_codec.packs os s sc w st
  served_allows os s body w st b sc e h r =
      let reply = (check_shell sys janet library_codec os s (some body) w st).reply in
      let allows : IsAllow library_codec.packs reply =
        reply_message_allows mem decisions library_codec.packs fields reply b
          (check_shell-IsDecided sys janet library_codec os s (some body) w st)
          (filled_written (reply_message mem decisions reply) b h) r in
      let (sc', o, a) =
        check_shell-IsAllowed sys janet library_codec
          (host_message_denies mem decisions codec.packs fields) os s (some body) w st allows in
      let same : sc' ≡ sc = ground (arith, open_in-read codec.read_shell body sc' o) in
      subst (λ (x : ShellCheck). IsAllowed sys janet library_codec.packs os s x w st) same a

  encoded-asked :
      (cwd : CString) (argv : List CString) (body : Bytes)
      → length (or_empty cwd) < 2 ^ 31
      → AllShort argv
      → encoded sys janet codec mem decisions shells cwd argv ≡ written body
      → codec.read_shell body ≡ some (asked rust_agent cwd argv)
  unfolding encoded
  encoded-asked cwd argv body p q h =
      let m = shell_message rust_agent cwd argv in
      let (cap, e) =
        write_encoded-held mem (shells.write_mem m) body
          (if_written (shells.set_root m) (write_encoded mem (shells.write_mem m)) body h) in
      shell_message-asked shells codec.read_shell reads rust_agent cwd argv cap body p q e

  ask_check_allows :
      (os : Os) (s : Supervisor) (cwd : CString) (argv : List CString) (w : World) (st : Packs V H)
      (b : Bytes) (sent : Written)
      → encoded sys janet codec mem decisions shells cwd argv ≡ sent
      → length (or_empty cwd) < 2 ^ 31
      → AllShort argv
      → (ask_check sys janet codec mem decisions shells os s sent w st).message ≡ written b
      → ReadsAllow codec.packs b
      → IsAllowed sys janet library_codec.packs os s (asked rust_agent cwd argv) w st
  unfolding ask_check
  ask_check_allows os s cwd argv w st b not_written e p q h r = absurd (ground arith)
  ask_check_allows os s cwd argv w st b endless e p q h r = absurd (ground arith)
  ask_check_allows os s cwd argv w st b (written body) e p q h r =
      served_allows os s body w st b (asked rust_agent cwd argv) (encoded-asked cwd argv body p q e)
        h r

  -- The Rust crate receives a message that reads as allow only for a command that is allowed: the
  -- check was on the directory and the words that the caller gave, for the agent 0:1; the directory is
  -- contained in that agent's workspace and not sensitive; and the packs that check commands, of which
  -- there is one at least, each return allow if the command has a word. The strings are shorter than
  -- 2 GiB, and the codec reads what it has written.
  pub ljos_phronesis_check_shell-IsAllowed :
      (os : Os) (s : Supervisor) (cwd : CString) (argv : List CString) (w : World) (st : Packs V H)
      (b : Bytes)
      → length (or_empty cwd) < 2 ^ 31
      → AllShort argv
      → (ljos_phronesis_check_shell sys janet codec mem decisions shells os s cwd argv w st).message
        ≡ written b
      → ReadsAllow codec.packs b
      → IsAllowed sys janet library_codec.packs os s (asked rust_agent cwd argv) w st
  unfolding ljos_phronesis_check_shell
  ljos_phronesis_check_shell-IsAllowed os s cwd argv w st b p q h r =
      ask_check_allows os s cwd argv w st b (encoded sys janet codec mem decisions shells cwd argv)
        refl p q h r
