-- ===== src/Clients/Encode.antt =====
-- The ShellCheck that a client builds: ctext and the building of the message, which
-- crates/phronesis-sys/csrc/shell_encode.c and playground/scripts/export_shell_msg.c share.
use phronesis.Base.{ℕ, ◌^◌, ◌<◌, ◌≡◌, refl, Option, some, List, [], ◌∷◌, length, arith, ap}
use phronesis.Base.Int.{to_int, ℤ, pos}
use phronesis.Base.CString.{Bytes, CString, or_empty}
use phronesis.Pack.View.{Texts}
use phronesis.Wire.Agents.{AgentId}
use phronesis.Wire.Shell.{ShellCheck}
use phronesis.Wire.Message.{Writer}

-- capn_text
pub record Text : Type 0 where
  pub len : ℤ
  pub str : Bytes

-- ctext of the clients, which does not limit the length
unfoldable pub client_text : CString → Text
unfolding to_int
client_text s = record { len = to_int (length (or_empty s)); str = or_empty s }

pub record ShellMessage : Type 0 where
  pub agent : AgentId
  pub cwd : Text
  pub argv : List Text

unfoldable pub texts : List CString → List Text
unfolding client_text
texts [] = []
texts (w ∷ ws) = client_text w ∷ texts ws

unfoldable pub shell_message : AgentId → CString → List CString → ShellMessage
unfolding client_text texts
shell_message agent cwd words = record { agent = agent; cwd = client_text cwd; argv = texts words }

-- The length of a text is that of its string.
abbrev pub IsWhole : Text → Type 0
IsWhole t = t.len ≡ pos (length t.str)

abbrev pub AllWhole : List Text → Type 0
AllWhole [] = Unit {0}
AllWhole (t ∷ ts) = IsWhole t × AllWhole ts

abbrev pub strings : List Text → Texts
strings [] = []
strings (t ∷ ts) = some t.str ∷ strings ts

-- A reader that finds in a written message the agent, the directory and the words, if the length of
-- each text is that of its string.
abbrev pub ReadsShell : Writer ShellMessage → (Bytes → Option ShellCheck) → Type 0
ReadsShell writer read =
    (m : ShellMessage) (cap : ℕ) (b : Bytes)
    → IsWhole m.cwd
    → AllWhole m.argv
    → writer.write_mem m cap ≡ some b
    → read b ≡ some (record { agent = some m.agent; cwd = m.cwd.str; argv = strings m.argv })

-- Strings of less than 2 GiB.
abbrev pub AllShort : List CString → Type 0
AllShort [] = Unit {0}
AllShort (w ∷ ws) = (length (or_empty w) < 2 ^ 31) × AllShort ws

abbrev pub words_of : List CString → Texts
words_of [] = []
words_of (w ∷ ws) = some (or_empty w) ∷ words_of ws

-- The command that a client asks about.
abbrev pub asked : AgentId → CString → List CString → ShellCheck
asked agent cwd words = record { agent = some agent; cwd = or_empty cwd; argv = words_of words }

client_text-IsWhole : (s : CString) → length (or_empty s) < 2 ^ 31 → IsWhole (client_text s)
unfolding client_text to_int
client_text-IsWhole s h = ground arith

texts-AllWhole : (ws : List CString) → AllShort ws → AllWhole (texts ws)
unfolding texts
texts-AllWhole [] h = tt
texts-AllWhole (w ∷ ws) (a, h) = (client_text-IsWhole w a, texts-AllWhole ws h)

strings-texts : (ws : List CString) → strings (texts ws) ≡ words_of ws
unfolding client_text texts
strings-texts [] = refl
strings-texts (w ∷ ws) = ap (◌∷◌ (some (or_empty w))) (strings-texts ws)

-- The message of a client reads as the command that it asks about.
pub shell_message-asked :
    (writer : Writer ShellMessage) (read : Bytes → Option ShellCheck)
    → ReadsShell writer read
    → (agent : AgentId) (cwd : CString) (words : List CString) (cap : ℕ) (b : Bytes)
    → length (or_empty cwd) < 2 ^ 31
    → AllShort words
    → writer.write_mem (shell_message agent cwd words) cap ≡ some b
    → read b ≡ some (asked agent cwd words)
unfolding shell_message client_text
shell_message-asked writer read reads agent cwd words cap b p q h = rw (strings-texts words) at (
    reads (shell_message agent cwd words) cap b (client_text-IsWhole cwd p) (texts-AllWhole words q)
      h)
