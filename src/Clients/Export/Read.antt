-- ===== src/Clients/Export/Read.antt =====
-- What the exported file reads as.
use phronesis.Base.{
  ℕ, zero, suc, ◌<◌, ◌≤◌, ◌^◌, ◌≡◌, ◌≢◌, refl, Bool, true, false, Option, some, List, [], ◌∷◌,
  arith, length, take, take_all, if◌then◌else◌,
}
use phronesis.Base.CString.{Bytes, CString, codes, strcmp_eq}
use phronesis.Wire.Shell.{ShellCheck}
use phronesis.Wire.Message.{Written, written, not_written, endless}
use phronesis.Wire.Message.{Writer}
use phronesis.Clients.Message.{
  write_exported, write_exported-held, write_exported-ends, Grows, write_loops-deliver,
}
use phronesis.Clients.Encode.{
  ShellMessage, ReadsShell, AllShort, asked, shell_message, shell_message-asked,
}
use phronesis.Clients.Export.{
  Sink, ExportOutcome, exits, endless_run, fails, export_agent, write_out, or_ws, given_words,
  emit_shell_check, export_argv, export_main,
}

-- Words of less than 2 GiB.
abbrev pub ShortWords : List Bytes → Type 0
ShortWords [] = Unit {0}
ShortWords (w ∷ ws) = (length w < 2 ^ 31) × ShortWords ws

take-ShortWords : (n : ℕ) (ws : List Bytes) → ShortWords ws → ShortWords (take n ws)
take-ShortWords zero ws h = tt
take-ShortWords (suc n) [] h = tt
take-ShortWords (suc n) (w ∷ ws) (a, h) = (a, take-ShortWords n ws h)

given_words-AllShort : (ws : List Bytes) → ShortWords ws → AllShort (given_words ws)
given_words-AllShort [] h = tt
given_words-AllShort (w ∷ ws) (a, h) = (a, given_words-AllShort ws h)

module _ (mem : ℕ → Bool) (sink : Sink) (shells : Writer ShellMessage)
    (read : Bytes → Option ShellCheck) (reads : ReadsShell shells read) where
  -- One message that reads as the command was given to fwrite, which took the whole of it; the file
  -- holds it as far as it was flushed.
  abbrev pub Wrote : CString → ShellCheck → Option (CString × Bytes) → Type 0
  Wrote out sc o =
      (body : Bytes) × (o ≡ some (out, take (sink.stored body) body))
      × (read body ≡ some sc)
      × (sink.fwrite body ≡ length body)

  write_out-Wrote :
      (out : CString) (sc : ShellCheck) (r : Written) (o : Option (CString × Bytes))
      → ((b : Bytes) → r ≡ written b → read b ≡ some sc)
      → write_out mem sink shells out r ≡ exits 0 o
      → Wrote out sc o
  unfolding write_out
  write_out-Wrote out sc not_written o h e = absurd (ground arith)
  write_out-Wrote out sc endless o h e = absurd (ground arith)
  write_out-Wrote out sc (written b) o h e = (b, ground arith, h b refl, ground arith)

  set_root_exits :
      (t : Bool) (r : ExportOutcome) (o : Option (CString × Bytes))
      → (if t then r else fails) ≡ exits 0 o
      → r ≡ exits 0 o
  set_root_exits true r o e = e
  set_root_exits false r o e = absurd (ground arith)

  emit_shell_check-Wrote :
      (cwd : Bytes) (words : List Bytes) (out : CString) (o : Option (CString × Bytes))
      → length cwd < 2 ^ 31
      → ShortWords words
      → emit_shell_check mem sink shells (some cwd) words out ≡ exits 0 o
      → Wrote out (asked export_agent (some cwd) (given_words words)) o
  unfolding emit_shell_check
  emit_shell_check-Wrote cwd words out o p q e =
      let m = shell_message export_agent (some cwd) (given_words words) in
      let w = write_exported mem (shells.write_mem m) in
      write_out-Wrote out _ w o
        (λ b x.
          let (cap, f) = write_exported-held mem (shells.write_mem m) b x in
          shell_message-asked shells read reads export_agent (some cwd) (given_words words) cap b p
            (given_words-AllShort words q) f)
        (set_root_exits (shells.set_root m) (write_out mem sink shells out w) o e)

  -- With --argv, a file, a directory and words, a run that exits with 0 has given one message for the
  -- file to fwrite, which took the whole of it; it reads as a check of the agent 1:2 on that directory
  -- and the first 64 of these words, and the file holds what was flushed of it. The strings are shorter
  -- than 2 GiB, and the codec reads what it has written.
  pub export_main-asked :
      (out cwd w : Bytes) (ws : List Bytes) (o : Option (CString × Bytes))
      → length cwd < 2 ^ 31
      → ShortWords (w ∷ ws)
      → export_main mem sink shells (codes "--argv" ∷ out ∷ cwd ∷ w ∷ ws) ≡ exits 0 o
      → Wrote (some out) (asked export_agent (some cwd) (given_words (take 64 (w ∷ ws)))) o
  unfolding export_main export_argv strcmp_eq
  export_main-asked out cwd w ws o p q e =
      emit_shell_check-Wrote cwd (take 64 (w ∷ ws)) (some out) o p (take-ShortWords 64 (w ∷ ws) q) e

module _ (mem : ℕ → Bool) (sink : Sink) (shells : Writer ShellMessage) where
  write_out_whole :
      (out b : Bytes)
      → sink.opens out ≡ true
      → sink.fwrite b ≡ length b
      → length b ≤ sink.stored b
      → write_out mem sink shells (some out) (written b) ≡ exits 0 (some (some out, b))
  unfolding write_out
  write_out_whole out b opens all kept = ground (arith, take_all (sink.stored b) b)

  emit_delivers :
      (words : List Bytes) (out cwd b : Bytes)
      → let m = shell_message export_agent (some cwd) (given_words words) in
        shells.set_root m ≡ true
        → write_exported mem (shells.write_mem m) ≡ written b
        → sink.opens out ≡ true
        → sink.fwrite b ≡ length b
        → length b ≤ sink.stored b
        → emit_shell_check mem sink shells (some cwd) words (some out)
          ≡ exits 0 (some (some out, b))
  unfolding emit_shell_check
  emit_delivers words out cwd b root w opens all kept =
      rw (root, w) (write_out_whole out b opens all kept)

  write_out-ends :
      (out : CString) (r : Written) → r ≢ endless → write_out mem sink shells out r ≢ endless_run
  unfolding write_out
  write_out-ends out not_written n e = ground arith
  write_out-ends out endless n e = n refl
  write_out-ends out (written b) n e = absurd (ground arith)

  set_root-ends :
      (t : Bool) (r : ExportOutcome) → r ≢ endless_run → (if t then r else fails) ≢ endless_run
  set_root-ends true r n e = n e
  set_root-ends false r n e = ground arith

  -- A run of emit_shell_check has an exit code.
  pub emit_shell_check-ends :
      (cwd : CString) (words : List Bytes) (out : CString)
      → emit_shell_check mem sink shells cwd words out ≢ endless_run
  unfolding emit_shell_check
  emit_shell_check-ends cwd words out =
      let m = shell_message export_agent (some (or_ws cwd)) (given_words words) in
      let w = write_exported mem (shells.write_mem m) in
      set_root-ends (shells.set_root m) (write_out mem sink shells out w)
        (write_out-ends out w (write_exported-ends mem (shells.write_mem m)))

  -- The command line writes the message and exits with 0, where it is built and fits in 1 MiB, malloc
  -- returns memory, what fits in a buffer fits in a larger one as the same bytes, the file is opened,
  -- fwrite takes the whole, and all of it is flushed.
  pub export_main-delivers :
      (out cwd w : Bytes) (ws : List Bytes) (b : Bytes)
      → let m = shell_message export_agent (some cwd) (given_words (take 64 (w ∷ ws))) in
        shells.set_root m ≡ true
        → Grows mem (shells.write_mem m)
        → shells.write_mem m 1048576 ≡ some b
        → ((d : ℕ) → d ≤ 1048576 → mem d ≡ true)
        → sink.opens out ≡ true
        → sink.fwrite b ≡ length b
        → length b ≤ sink.stored b
        → export_main mem sink shells (codes "--argv" ∷ out ∷ cwd ∷ w ∷ ws)
          ≡ exits 0 (some (some out, b))
  unfolding export_main export_argv strcmp_eq
  export_main-delivers out cwd w ws b root grows fits m opens all kept =
      emit_delivers (take 64 (w ∷ ws)) out cwd b root
        (write_loops-deliver mem
          (shells.write_mem
            (shell_message export_agent (some cwd) (given_words (take 64 (w ∷ ws)))))
          grows b fits m).1
        opens all kept
