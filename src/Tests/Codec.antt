-- ===== src/Tests/Codec.antt =====
-- A codec of decisions and shell checks that reads what it writes: the texts end with 0, and each of
-- their bytes is one more.
use phronesis.Base.{
  ℕ, zero, suc, ◌%◌, ◌^◌, ◌≡◌, refl, ap, sym, ◌∙◌, Bool, true, Option, none, some, List, [], ◌∷◌,
  ◌++◌, arith, leb, length, if◌then◌else◌,
}
use phronesis.Base.CString.{Bytes}
use phronesis.Pack.Compose.{FieldReader}
use phronesis.Pack.View.{Texts}
use phronesis.Wire.Agents.{AgentId}
use phronesis.Wire.Shell.{ShellCheck}
use phronesis.Wire.Message.{Writer}
use phronesis.Wire.Emit.{PolicyDecision}
use phronesis.Wire.Emit.Reads.{ReadsFields}
use phronesis.Clients.Encode.{Text, ShellMessage, strings, ReadsShell}
use phronesis.Clients.Message.{Grows}

-- A message of one byte, which packs write, reads as allow.
abbrev pub two_fields : FieldReader
two_fields [] = none
two_fields (x ∷ []) = some (1, 20)
two_fields (d ∷ c ∷ []) = some (d, c)
two_fields _ = none

-- The bytes of a message, in a buffer that they fit.
abbrev pub in_buffer : Bytes → ℕ → Option Bytes
in_buffer b cap = if leb (length b) cap then some b else none

abbrev pub decision_bytes : PolicyDecision → Bytes
decision_bytes m = (m.decision % 2 ^ 16) ∷ (m.code % 2 ^ 16) ∷ []

abbrev pub decision_writer : Writer PolicyDecision
decision_writer = record { set_root = λ m. true; write_mem = λ m. in_buffer (decision_bytes m) }

in_buffer-some : (a b : Bytes) (cap : ℕ) → in_buffer a cap ≡ some b → a ≡ b
in_buffer-some a b cap h = ground arith

pub two_fields-ReadsFields : ReadsFields decision_writer two_fields
two_fields-ReadsFields m cap b h = ground (arith, in_buffer-some (decision_bytes m) b cap h)

unfoldable pub text_bytes : Bytes → Bytes
text_bytes [] = 0 ∷ []
text_bytes (c ∷ s) = suc c ∷ text_bytes s

unfoldable pub all_bytes : List Text → Bytes
all_bytes [] = []
all_bytes (t ∷ ts) = text_bytes t.str ++ all_bytes ts

abbrev push : ℕ → Texts → Texts
push c [] = []
push c (none ∷ ts) = none ∷ ts
push c (some t ∷ ts) = some (c ∷ t) ∷ ts

unfoldable pub read_texts : Bytes → Texts
read_texts [] = []
read_texts (zero ∷ s) = some [] ∷ read_texts s
read_texts (suc c ∷ s) = push c (read_texts s)

read_texts-text_bytes :
    (s rest : Bytes) → read_texts (text_bytes s ++ rest) ≡ some s ∷ read_texts rest
unfolding read_texts text_bytes
read_texts-text_bytes [] rest = refl
read_texts-text_bytes (c ∷ s) rest = ap (push c) (read_texts-text_bytes s rest)

read_texts-all_bytes : (ts : List Text) → read_texts (all_bytes ts) ≡ strings ts
unfolding read_texts all_bytes
read_texts-all_bytes [] = refl
read_texts-all_bytes (t ∷ ts) =
    read_texts-text_bytes t.str (all_bytes ts) ∙ ap (◌∷◌ (some t.str)) (read_texts-all_bytes ts)

abbrev pub shell_bytes : ShellMessage → Bytes
shell_bytes m = m.agent.hi ∷ m.agent.lo ∷ (text_bytes m.cwd.str ++ all_bytes m.argv)

abbrev with_cwd : AgentId → Texts → Option ShellCheck
with_cwd agent [] = none
with_cwd agent (none ∷ ts) = none
with_cwd agent (some cwd ∷ ts) = some (record { agent = some agent; cwd = cwd; argv = ts })

abbrev pub read_shell : Bytes → Option ShellCheck
read_shell [] = none
read_shell (hi ∷ []) = none
read_shell (hi ∷ lo ∷ b) = with_cwd (record { hi = hi; lo = lo }) (read_texts b)

abbrev pub shell_writer : Writer ShellMessage
shell_writer = record { set_root = λ m. true; write_mem = λ m. in_buffer (shell_bytes m) }

pub read_shell-ReadsShell : ReadsShell shell_writer read_shell
read_shell-ReadsShell m cap b p q h =
    let t : read_texts (text_bytes m.cwd.str ++ all_bytes m.argv)
        ≡ some m.cwd.str ∷ strings m.argv =
      read_texts-text_bytes m.cwd.str (all_bytes m.argv)
      ∙ ap (◌∷◌ (some m.cwd.str)) (read_texts-all_bytes m.argv) in
    ap read_shell (sym (in_buffer-some (shell_bytes m) b cap h)) ∙ ap (with_cwd m.agent) t

pub in_buffer-Grows : (mem : ℕ → Bool) (b : Bytes) → Grows mem (in_buffer b)
in_buffer-Grows mem b c d a h e = ground (arith, in_buffer-some b a c e)
