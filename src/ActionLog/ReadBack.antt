-- ===== src/ActionLog/ReadBack.antt =====
-- Appending a record and reading the last one.
use phronesis.Base.{
  ℕ, ◌^◌, ◌+◌, ◌<◌, ◌≤◌, ◌≡◌, refl, ap, ◌∙◌, true, Option, none, some, [], ◌∷◌, ◌++◌, arith, length,
}
use phronesis.Base.Int.{to_int_lem}
use phronesis.Base.CString.Laws.{snprintf_s_fits}
use phronesis.Base.CString.{Bytes, CString, nonempty, or_empty}
use phronesis.Policy.Types.{ok}
use phronesis.World.{World, Os, Node, directory, regular}
use phronesis.World.Files.{content, is_regular, fopen_r}
use phronesis.ActionLog.Escape.{escaped}
use phronesis.ActionLog.Records.{action_log_append}
use phronesis.ActionLog.Records.Lines.{log_body, log_line-log_body, printable-log_body}
use phronesis.ActionLog.Append.{action_log_append-ok}
use phronesis.ActionLog.Last.{action_log_last, line_buffer, read_lines, store_last}
use phronesis.ActionLog.Last.Laws.{ends_line, ends_line-append, read_lines_last}

abbrev pub body : Os → World → CString → CString → CString → Bytes
body os w agent kind detail =
    log_body (os.clock w.calls) (escaped (or_empty agent)) (escaped (or_empty kind))
      (escaped (or_empty detail))

action_log_last_read :
    (os : Os) (path : Bytes) (buflen : ℕ) (w : World) (last : Bytes)
    → os.io_ok w.calls ≡ true
    → is_regular (w.node path) ≡ true
    → read_lines [] [] (content (w.node path)) ≡ last
    → nonempty last ≡ true
    → length last < buflen
    → buflen < 2 ^ 31
    → ((action_log_last os (some path) buflen w).0 ≡ ok)
      × ((action_log_last os (some path) buflen w).1 ≡ last)
unfolding action_log_last store_last fopen_r
action_log_last_read os path buflen w last i r e n l m =
    let b = to_int_lem buflen m in
    let cut = snprintf_s_fits buflen last l in (ground arith, ground arith)

is_regular_of_content : (n : Option Node) → nonempty (content n) ≡ true → is_regular n ≡ true
is_regular_of_content none h = ground arith
is_regular_of_content (some directory) h = ground arith
is_regular_of_content (some (regular b)) h = refl

nonempty-append_line : (old s : Bytes) → nonempty (old ++ (s ++ b'\n' ∷ [])) ≡ true
nonempty-append_line [] [] = refl
nonempty-append_line [] (c ∷ s) = refl
nonempty-append_line (d ∷ old) s = refl

-- When the log held complete lines, the new record fits the reader's line buffer and the
-- caller's, which is smaller than 2 GiB, and the log can be opened, the last action read back after a successful append is
-- that record, without its newline, and the log holds complete lines again.
pub action_log_last-append :
    (os : Os) (path : Bytes) (agent kind detail : CString) (buflen : ℕ) (w w' : World)
    → action_log_append os (some path) agent kind detail w ≡ (ok, w')
    → ends_line (content (w.node path)) ≡ true
    → length (body os w agent kind detail) + 2 ≤ line_buffer
    → length (body os w agent kind detail) < buflen
    → buflen < 2 ^ 31
    → os.io_ok w'.calls ≡ true
    → ((action_log_last os (some path) buflen w').0 ≡ ok)
      × ((action_log_last os (some path) buflen w').1 ≡ body os w agent kind detail)
      × (ends_line (content (w'.node path)) ≡ true)
action_log_last-append os path agent kind detail buflen w w' h e l b m i =
    let s = body os w agent kind detail in
    let grown : content (w'.node path) ≡ content (w.node path) ++ (s ++ b'\n' ∷ []) =
      (action_log_append-ok os path agent kind detail w w' h).grown
      ∙ ap (λ t. content (w.node path) ++ t) (log_line-log_body _ _ _ _) in
    let shown =
      printable-log_body (os.clock w.calls) (or_empty agent) (or_empty kind) (or_empty detail) in
    let (p, q) =
      action_log_last_read os path buflen w' s i
        (is_regular_of_content (w'.node path)
          (ap nonempty grown ∙ nonempty-append_line (content (w.node path)) s))
        (ap (read_lines [] []) grown ∙ read_lines_last (content (w.node path)) s e shown refl l)
        refl b m in
    (p, q, ap ends_line grown ∙ ends_line-append (content (w.node path)) s)
