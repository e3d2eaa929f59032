-- ===== src/World.antt =====
-- The operating system under the program: the file tree and the calls made so far. What a call
-- answers is given by `Os`, as a function of the calls before it, so that a theorem for every `Os`
-- holds whatever other processes do and whichever calls fail.
pub mod Files
use phronesis.Base.{ℕ, Bool, true, false, Option, none, some, List, [], ◌∷◌, if◌then◌else◌}
use phronesis.Base.Int.{ℤ}
use phronesis.Base.CString.{Bytes, strcmp_eq}

-- A node of the file tree.
pub data Node : Type 0 where
  directory : Node
  regular : Bytes → Node

-- The system calls that matter here, with their arguments.
pub data Call : Type 0 where
  open_read open_write open_append open_excl : Bytes → Call
  printed closed : Bytes → Call
  unlinked removed : Bytes → Call
  renamed : Bytes → Bytes → Call
  stat_of : Bytes → Call
  make_dir : Bytes → ℕ → Call
  signal : ℤ → ℕ → Call
  wait_for : ℤ → Call
  forked slept timed : Call
  set_group : ℤ → Call

-- kill(): 0, -1 with ESRCH, -1 with another errno
pub data KillAnswer : Type 0 where
  delivered no_process refused : KillAnswer

-- mkdir(): 0; -1 with EEXIST, since another process has made a directory or a file of that name
-- meanwhile; -1 with another errno
pub data MkdirAnswer : Type 0 where
  made directory_there file_there not_made : MkdirAnswer

pub record World : Type 0 where
  pub node : Bytes → Option Node
  pub calls : List Call

pub record Os : Type 0 where
  -- Does the file operation that is asked for now succeed?
  pub io_ok : List Call → Bool
  -- How many bytes reach the file when a write fails.
  pub written : List Call → ℕ
  pub kill_answer : List Call → KillAnswer
  -- The status that waitpid reaps, if it reaps the process.
  pub wait_answer : List Call → Option ℤ
  -- The child's process id, or a failure.
  pub fork_answer : List Call → Option ℕ
  pub mkdir_answer : List Call → MkdirAnswer
  pub clock : List Call → ℕ
  pub own_pid : ℕ
  -- A bound on the children that one process group can still hold.
  pub group_size : ℕ

abbrev pub call : Call → World → World
call c w = record w { calls = c ∷ w.calls }

abbrev pub put_node : Bytes → Option Node → World → World
put_node p v w = record w { node = λ q. if strcmp_eq p q then v else w.node q }
