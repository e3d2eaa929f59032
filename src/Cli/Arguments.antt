-- ===== src/Cli/Arguments.antt =====
-- The options of main in phronesis.c, and the words behind "--".
use phronesis.Base.{ℕ, ◌||◌, not, some, List, [], ◌∷◌, if◌then◌else◌}
use phronesis.Base.CString.{Bytes, CString, codes, strcmp_eq}
use phronesis.Path.Lexical.{head_is}

-- What the options leave: a command with its arguments, or an exit.
pub data Invocation : Type 0 where
  command : CString → CString → Bytes → List Bytes → Invocation
  exits : ℕ → Invocation

-- An option that takes no directory: help, or a mistake.
abbrev plain_option : Bytes → Invocation
plain_option arg =
    if strcmp_eq arg (codes "-h") || strcmp_eq arg (codes "--help") then exits 0 else exits 2

-- while (i < argc && argv[i][0] == '-'), with the directories found so far
unfoldable pub parse_options : CString → CString → List Bytes → Invocation
parse_options state runtime [] = exits 2
parse_options state runtime (arg ∷ []) =
    if head_is b'-' arg then plain_option arg else command state runtime arg []
parse_options state runtime (arg ∷ dir ∷ rest) =
    let with_state = parse_options (some dir) runtime rest in
    let with_runtime = parse_options state (some dir) rest in
    if not (head_is b'-' arg)
    then command state runtime arg (dir ∷ rest)
    else if strcmp_eq arg (codes "--state-dir")
    then with_state
    else if strcmp_eq arg (codes "--runtime-dir")
    then with_runtime
    else plain_option arg

-- The words behind the first "--".
unfoldable pub behind_dashes : List Bytes → List Bytes
behind_dashes [] = []
behind_dashes (arg ∷ rest) =
    let later = behind_dashes rest in if strcmp_eq arg (codes "--") then rest else later
