-- ===== src/Pack/Paths.antt =====
-- The tests on pack paths that ask nothing of the file system: env_flag_on to
-- pack_under_trusted_prefix, path_has_dotdot, default_pack_dir and pack_root_path of policy_janet.c.
use phronesis.Base.{
  ℕ, Bool, true, false, ◌&&◌, ◌||◌, not, Option, none, some, List, [], ◌∷◌, ◌++◌, ltb, leb, ◌==◌,
  ◌+◌, length, if◌then◌else◌,
}
use phronesis.Base.CString.{Bytes, CString, codes, is_set, or_empty, nonempty, strip_prefix}
use phronesis.Path.Components.{keep_names}
use phronesis.Path.Lexical.{head_is, next, at_boundary, drop_slashes}
use phronesis.Policy.Env.{Env}

-- PACK_PATH_MAX, PACK_MAX and PACK_SPEC_MAX
abbrev pub pack_path_max : ℕ
pack_path_max = 4096

abbrev pub pack_max : ℕ
pack_max = 16

abbrev pub pack_spec_max : ℕ
pack_spec_max = 65536

-- tolower, in the C locale
abbrev pub lower : ℕ → ℕ
lower c = if leb 65 c && leb c 90 then c + 32 else c

-- strcasecmp(a, b) == 0
unfoldable pub strcasecmp_eq : Bytes → Bytes → Bool
strcasecmp_eq [] [] = true
strcasecmp_eq [] (d ∷ t) = false
strcasecmp_eq (c ∷ s) [] = false
strcasecmp_eq (c ∷ s) (d ∷ t) = lower c == lower d && strcasecmp_eq s t

unfoldable pub env_flag_on : Env → Bytes → Bool
unfolding strcasecmp_eq
env_flag_on getenv name =
    let e = or_empty (getenv name) in
    is_set (getenv name)
    && (strcasecmp_eq e (codes "1")
        || strcasecmp_eq e (codes "true")
        || strcasecmp_eq e (codes "yes"))

-- for (p = path; *p; p++)
unfoldable pub only_root : Bytes → Bool
unfolding at_boundary
only_root [] = true
only_root (c ∷ s) =
    let later = only_root s in
    if c == b'/' then later else if c == b'.' && at_boundary s then later else false

unfoldable pub path_is_fs_root : CString → Bool
unfolding only_root head_is
path_is_fs_root none = false
path_is_fs_root (some path) = head_is b'/' path && only_root path

unfoldable pub path_under_prefix : Bytes → Bytes → Bool
unfolding head_is drop_slashes at_boundary strip_prefix
path_under_prefix path prefix =
    if not (head_is b'/' path) || not (nonempty prefix)
    then false
    else if not (nonempty (drop_slashes prefix))
    then false
    else elim (strip_prefix (drop_slashes prefix) path) [ none ↦ false | some r ↦ at_boundary r ]

-- The bytes before the last '/', if there is one.
unfoldable pub before_slash : Bytes → Option Bytes
before_slash [] = none
before_slash (c ∷ s) = elim (before_slash s) [
  | some d ↦ some (c ∷ d)
  | none ↦ if c == b'/' then some [] else none
]

-- strrchr finds a '/' behind the first byte.
abbrev pub directory_of : Bytes → Option Bytes
directory_of path = elim (before_slash path) [
  | none ↦ none
  | some d ↦ if nonempty d then some d else none
]

abbrev pub share_dir : Bytes → Bytes
share_dir prefix = prefix ++ codes "/share/phronesis"

-- `default` is PHRONESIS_DEFAULT_JANET_PACK, which the build sets.
unfoldable pub pack_under_trusted_prefix : Bytes → Env → Bytes → Bool
unfolding path_under_prefix path_is_fs_root before_slash head_is
pack_under_trusted_prefix default getenv path =
    let prefix = or_empty (getenv (codes "PHRONESIS_PREFIX")) in
    let root = getenv (codes "PHRONESIS_PACK_ROOT") in
    path_under_prefix path (codes "/usr/local/share/phronesis")
    || path_under_prefix path (codes "/usr/share/phronesis")
    || (nonempty prefix
        && ltb (length (share_dir prefix)) pack_path_max
        && path_under_prefix path (share_dir prefix))
    || (elim (directory_of default) [
      | none ↦ false
      | some dir ↦ ltb (length dir) pack_path_max && path_under_prefix path dir
    ])
    || (head_is b'/' (or_empty root)
        && not (path_is_fs_root root)
        && path_under_prefix path (or_empty root))

-- "..", then the end or a '/'
unfoldable pub double_dot : Bytes → Bool
unfolding head_is next at_boundary
double_dot s = head_is b'.' s && head_is b'.' (next s) && at_boundary (next (next s))

-- The first test of the loop, from p on.
unfoldable pub slash_dotdot : Bytes → Bool
unfolding double_dot
slash_dotdot [] = false
slash_dotdot (c ∷ s) = let later = slash_dotdot s in c == b'/' && double_dot s || later

unfoldable pub path_has_dotdot : CString → Bool
unfolding slash_dotdot double_dot
path_has_dotdot none = true
path_has_dotdot (some path) = double_dot path || slash_dotdot path

-- What is stored in a buffer of n bytes.
unfoldable pub default_pack_dir : Bytes → ℕ → Option Bytes
unfolding before_slash
default_pack_dir default n = elim (directory_of default) [
  | none ↦ none
  | some dir ↦ if ltb n (length dir + 1) then none else some dir
]

unfoldable pub pack_root_path : Bytes → Env → ℕ → Option Bytes
unfolding default_pack_dir path_is_fs_root path_has_dotdot head_is
pack_root_path default getenv n =
    let e = getenv (codes "PHRONESIS_PACK_ROOT") in
    if is_set e
    then (if not (head_is b'/' (or_empty e)) || path_is_fs_root e || path_has_dotdot e
        then none
        else if leb n (length (or_empty e))
        then none
        else e)
    else default_pack_dir default n

-- The bytes before the first d, and the words behind each d.
unfoldable pub spec_word : ℕ → Bytes → Bytes
spec_word d [] = []
spec_word d (c ∷ s) = if c == d then [] else c ∷ spec_word d s

unfoldable pub words_behind : ℕ → Bytes → List Bytes
unfolding spec_word
words_behind d [] = []
words_behind d (c ∷ s) = if c == d then spec_word d s ∷ words_behind d s else words_behind d s

-- The tokens that strtok_r(buf, ":", &save) returns, none of them empty.
unfoldable pub spec_tokens : Bytes → List Bytes
unfolding spec_word words_behind keep_names
spec_tokens spec = keep_names (spec_word b':' spec ∷ words_behind b':' spec)
