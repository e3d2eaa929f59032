-- ===== src/Beneath/Walk.antt =====
-- phronesis_beneath_dir, walk_open and phronesis_beneath_open of beneath.c. The kernel's answers are
-- a parameter, a function of the calls made so far.
pub mod Opened
pub mod Descriptors
pub mod Names
use phronesis.Base.{
  ℕ, ◌≡◌, Bool, true, false, ◌&&◌, ◌||◌, not, Option, none, some, List, [], ◌∷◌, ◌==◌, leb, length,
  if◌then◌else◌,
}
use phronesis.Base.Int.{ℤ, is_negative}
use phronesis.Base.CString.{Bytes, CString, codes, or_empty, nonempty, strcmp_eq}
use phronesis.Path.Components.{names}
use phronesis.Path.Lexical.{head_is}
use phronesis.Supervisor.Types.{path_max}
use phronesis.Beneath.Root.{bad_root}

-- How a component is opened, always with O_NOFOLLOW and O_CLOEXEC: as a directory, or with the
-- flags that the caller gives for the last one.
pub data OpenMode : Type 0 where
  as_directory : OpenMode
  with_flags : ℕ → OpenMode

pub data FdCall : Type 0 where
  opened_root : Bytes → FdCall
  -- fcntl(fd, F_DUPFD_CLOEXEC, 0)
  duplicated : ℤ → FdCall
  opened_at : ℤ → Bytes → OpenMode → FdCall
  -- openat2 with RESOLVE_BENEATH, RESOLVE_NO_SYMLINKS and RESOLVE_NO_MAGICLINKS
  opened_beneath : ℤ → Bytes → ℕ → FdCall
  closed : ℤ → FdCall

-- openat2: a descriptor, ENOSYS, or another error
pub data Beneath2 : Type 0 where
  found : ℤ → Beneath2
  no_syscall : Beneath2
  refused : Beneath2

-- The last call is at the head of the list.
pub record Kernel : Type 0 where
  pub fd_answer : List FdCall → Option ℤ
  pub beneath_answer : List FdCall → Beneath2

unfoldable pub beneath_dir : Kernel → CString → List FdCall → Option ℤ × List FdCall
beneath_dir k root calls =
    let calls' = opened_root (or_empty root) ∷ calls in
    if bad_root root then (none, calls) else (k.fd_answer calls', calls')

abbrev is_last : List Bytes → Bool
is_last [] = true
is_last (x ∷ xs) = false

abbrev pub open_mode : List Bytes → ℕ → OpenMode
open_mode later flags = if is_last later then with_flags flags else as_directory

-- if (next < 0) return -1;
abbrev pub if_opened :
    Option ℤ → Option ℤ × List FdCall → (ℤ → Option ℤ × List FdCall) → Option ℤ × List FdCall
if_opened none failed go_on = failed
if_opened (some fd) failed go_on = go_on fd

-- The loop over the tokens of strtok_r, the descriptor `cur` being the directory reached.
unfoldable pub walk : Kernel → ℕ → ℤ → List Bytes → List FdCall → Option ℤ × List FdCall
walk k flags cur [] calls = (some cur, calls)
walk k flags cur (tok ∷ later) calls =
    let tried = opened_at cur tok (open_mode later flags) ∷ calls in
    let skipped = walk k flags cur later calls in
    let entered =
      if_opened (k.fd_answer tried) (none, closed cur ∷ tried)
        (λ reached. walk k flags reached later (closed cur ∷ tried)) in
    if strcmp_eq tok (codes ".")
    then skipped
    else if strcmp_eq tok (codes "..")
    then (none, closed cur ∷ calls)
    else entered

-- strtok_r(buf, "/", &save) returns the components that are not empty.
unfoldable pub walk_open : Kernel → ℤ → Bytes → ℕ → List FdCall → Option ℤ × List FdCall
unfolding walk
walk_open k rootfd rel flags calls =
    let calls' = duplicated rootfd ∷ calls in
    let cur = k.fd_answer calls' in
    if not (nonempty rel) || leb path_max (length rel)
    then (none, calls)
    else if strcmp_eq rel (codes ".")
    then (cur, calls')
    else if_opened cur (none, calls') (λ fd. walk k flags fd (names rel) calls')

unfoldable pub after_openat2 :
    Kernel → Beneath2 → ℤ → Bytes → ℕ → List FdCall → Option ℤ × List FdCall
unfolding walk_open
after_openat2 k (found fd) rootfd rel flags calls = (some fd, calls)
after_openat2 k refused rootfd rel flags calls = (none, calls)
after_openat2 k no_syscall rootfd rel flags calls = walk_open k rootfd rel flags calls

unfoldable pub beneath_open : Kernel → ℤ → CString → ℕ → List FdCall → Option ℤ × List FdCall
unfolding after_openat2
beneath_open k rootfd rel flags calls =
    let calls' = opened_beneath rootfd (or_empty rel) flags ∷ calls in
    if is_negative rootfd || not (nonempty (or_empty rel)) || head_is b'/' (or_empty rel)
    then (none, calls)
    else after_openat2 k (k.beneath_answer calls') rootfd (or_empty rel) flags calls'
