-- ===== src/Clients/Playground/Exported.antt =====
-- An exported message that the page checks.
use phronesis.Base.{
  ℕ, ◌≡◌, ◌<◌, ◌^◌, sym, Bool, Option, some, List, ◌∷◌, arith, length, take, take_all, ◌≤◌,
}
use mathlib.Core.Path.{subst}
use phronesis.Base.CString.{Bytes, CString, codes}
use phronesis.World.{Os}
use phronesis.Pack.Files.{System}
use phronesis.Pack.Compile.{Janet}
use phronesis.Trace.Ring.Calls.{Call}
use phronesis.Wire.Checks.{open_in}
use phronesis.Wire.Shell.{ShellCheck, ShellCodec}
use phronesis.Wire.Shell.ByPacks.{ReadsAllow, IsAllowed}
use phronesis.Wire.Message.{Writer}
use phronesis.Wire.Emit.{PolicyDecision, with_denials}
use phronesis.Wire.Emit.Reads.{ReadsFields}
use phronesis.Clients.Encode.{ShellMessage, ReadsShell, asked}
use phronesis.Clients.Export.{Sink, exits, export_agent, given_words, export_main}
use phronesis.Clients.Export.Read.{ShortWords, export_main-asked}
use phronesis.Clients.Playground.{Held, Page, pd_answer, pd_check_shell}
use phronesis.Clients.Playground.Answers.{pd_check_shell-IsAllowed}

opened_as :
    (read : Bytes → Option ShellCheck) (body : Bytes) (sc asked_for : ShellCheck)
    → open_in read (some body) ≡ some sc
    → read body ≡ some asked_for
    → sc ≡ asked_for
opened_as read body sc asked_for h e = ground arith

module _ {V H : Type 0} (os : Os) (sys : System) (janet : Janet V H) (shells : ShellCodec)
    (mem : ℕ → Bool) (decisions : Writer PolicyDecision) (events : Bytes → Held V H → List Call)
    (fields : ReadsFields decisions shells.packs.read_fields) (sink : Sink)
    (writer : Writer ShellMessage) (reads : ReadsShell writer shells.read_shell) where
  -- If the tool exports a command line and exits with 0, where a message that fwrite takes is flushed to
  -- the file as a whole (the tool ignores the result of fclose), and the page gets an answer to that file which
  -- reads as allow, then this command, cut to 64 words, is allowed for the agent 1:2: its directory is
  -- contained in that agent's workspace and not sensitive, and the packs that check commands, of which
  -- there is one at least, each return allow. The strings are shorter than 2 GiB, and the codec reads
  -- what it has written.
  pub pd_check_shell-export_main :
      (out cwd w : Bytes) (ws : List Bytes) (file : CString) (body : Bytes) (page : Page V H)
      (b : Bytes)
      → length cwd < 2 ^ 31
      → ShortWords (w ∷ ws)
      → export_main mem sink writer (codes "--argv" ∷ out ∷ cwd ∷ w ∷ ws)
        ≡ exits 0 (some (file, body))
      → ((m : Bytes) → sink.fwrite m ≡ length m → length m ≤ sink.stored m)
      → (pd_check_shell os sys janet shells mem decisions events body page).0 ≡ pd_answer b
      → ReadsAllow shells.packs b
      → IsAllowed sys janet
          (with_denials mem decisions shells).packs
          os
          page.held.supervisor
          (asked export_agent (some cwd) (given_words (take 64 (w ∷ ws))))
          page.held.world
          page.held.packs
  pd_check_shell-export_main out cwd w ws file body page b p q e flushed a r =
      let command = asked export_agent (some cwd) (given_words (take 64 (w ∷ ws))) in
      let (written, o, read_back, taken) =
        export_main-asked mem sink writer shells.read_shell reads out cwd w ws (some (file, body)) p
          q e in
      let whole = take_all (sink.stored written) written (flushed written taken) in
      let same_body : body ≡ written = ground (arith, o, whole) in
      let back : shells.read_shell body ≡ some command =
        subst (λ (x : Bytes). shells.read_shell x ≡ some command) (sym same_body) read_back in
      let (sc, opened, allowed) =
        pd_check_shell-IsAllowed os sys janet shells mem decisions events fields body page b a r in
      subst
        (λ (x : ShellCheck).
          IsAllowed sys janet (with_denials mem decisions shells).packs os page.held.supervisor x
            page.held.world page.held.packs)
        (opened_as shells.read_shell body sc command opened back) allowed
