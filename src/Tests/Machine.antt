-- ===== src/Tests/Machine.antt =====
-- A machine for the tests: every call succeeds, and there are no files but those that are put there.
use phronesis.Base.{true, none, some, []}
use phronesis.Base.CString.{codes}
use phronesis.Policy.Env.{Env}
use phronesis.World.{World, Os, KillAnswer, MkdirAnswer}

abbrev pub quiet : Os
quiet = record {
  io_ok = λ c. true;
  written = λ c. 0;
  kill_answer = λ c. KillAnswer.no_process;
  wait_answer = λ c. none;
  fork_answer = λ c. some 77;
  mkdir_answer = λ c. MkdirAnswer.made;
  clock = λ c. 1700000000;
  own_pid = 42;
  group_size = 2;
}

abbrev pub empty_world : World
empty_world = record { node = λ q. none; calls = [] }

abbrev pub no_env : Env
no_env = λ name. none

abbrev pub deny_all_env : Env
deny_all_env = λ name. some (codes "1")
