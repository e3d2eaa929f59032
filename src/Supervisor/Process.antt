-- ===== src/Supervisor/Process.antt =====
-- reap_slot and kill_tree of supervisor.c: the signals and waits on an agent's processes.
pub mod Signals
use phronesis.Base.{
  ℕ, zero, suc, ◌+◌, Bool, true, false, ◌&&◌, ◌||◌, not, Option, none, some, List, [], ◌∷◌,
  if◌then◌else◌,
}
use phronesis.Base.Int.{ℤ, pos, negsuc, gt_ℕ}
use phronesis.Policy.Types.{Rc, ok, err_inval}
use phronesis.World.{
  World, Os, Call, signal, wait_for, slept, call, KillAnswer, delivered, no_process, refused,
}
use phronesis.Supervisor.Types.{Slot, AgentState, stopped, is_running}

-- The signal numbers of Linux, and the null signal.
abbrev pub sigterm : ℕ
sigterm = 15

abbrev pub sigkill : ℕ
sigkill = 9

abbrev pub kill : Os → ℤ → ℕ → World → KillAnswer × World
kill os target sig w = (os.kill_answer w.calls, call (signal target sig) w)

-- waitpid(target, &st, WNOHANG): the status, if a process is reaped.
abbrev pub waitpid : Os → ℤ → World → Option ℤ × World
waitpid os target w = (os.wait_answer w.calls, call (wait_for target) w)

abbrev pub is_gone : KillAnswer → Bool
is_gone no_process = true
is_gone _ = false

abbrev pub is_delivered : KillAnswer → Bool
is_delivered delivered = true
is_delivered _ = false

abbrev stop_with : ℤ → Slot → Slot
stop_with st a = record a { exit_status = st; state = stopped; pid = pos 0 }

-- Behind the two calls: what they tell of the slot's process.
unfoldable pub reaped : KillAnswer → Option ℤ → Slot → Slot
reaped answer (some st) a = stop_with st a
reaped no_process none a = stop_with (negsuc 0) a
reaped delivered none a = a
reaped refused none a = a

unfoldable pub reap_slot : Os → Slot → World → Slot × World
unfolding reaped
reap_slot os a w =
    let (answer, w1) = kill os a.pid 0 w in
    let (status, w2) = waitpid os a.pid w1 in
    if not (is_running a.state) || not (gt_ℕ a.pid 0) then (a, w) else (reaped answer status a, w2)

-- -pgid
abbrev pub negate : ℤ → ℤ
negate (pos zero) = pos zero
negate (pos (suc n)) = negsuc n
negate (negsuc n) = pos (suc n)

-- for (tries = 0; tries < n; tries++): until the group is gone
unfoldable pub wait_group : Os → ℤ → ℕ → World → World
wait_group os group zero w = w
wait_group os group (suc n) w =
    let (answer, w1) = kill os group 0 w in
    let (status, w2) = waitpid os group w1 in
    let later = wait_group os group n (call slept w2) in if is_gone answer then w1 else later

-- while (waitpid(group, &st, WNOHANG) > 0), with fuel
unfoldable pub drain_group : Os → ℤ → ℕ → World → World
drain_group os group zero w = w
drain_group os group (suc n) w =
    let (status, w1) = waitpid os group w in
    let later = drain_group os group n w1 in elim status [ none ↦ w1 | some st ↦ later ]

abbrev tries : ℕ
tries = 50

-- From SIGTERM to the last wait, for a process group.
unfoldable pub kill_group : Os → ℤ → World → World
unfolding wait_group drain_group
kill_group os group w =
    let w1 = wait_group os group tries (kill os group sigterm w).1 in
    let (left, w2) = kill os group 0 w1 in
    let w3 =
      if is_delivered left then wait_group os group tries (kill os group sigkill w2).1 else w2 in
    drain_group os group (os.group_size + 1) w3

unfoldable pub kill_tree : Os → ℤ → World → Rc × World
unfolding kill_group
kill_tree os pgid w =
    if not (gt_ℕ pgid 1) then (err_inval, w) else (ok, kill_group os (negate pgid) w)
