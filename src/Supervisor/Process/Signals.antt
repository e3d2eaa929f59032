-- ===== src/Supervisor/Process/Signals.antt =====
-- Which processes kill_tree reaches.
use mathlib.Core.Path.{subst}
use phronesis.Base.{
  ◌+◌, sym, Bool-cases, ◌≢◌, ◌↔◌, List, ◌∷◌, Option-cases, ℕ, zero, suc, ◌≡◌, refl, ◌⊎◌, inl, inr,
  Bool, true, false, Option, none, some, arith, if◌then◌else◌,
}
use phronesis.Base.Int.{ℤ, pos, negsuc, gt_ℕ}
use phronesis.Policy.Types.{ok, err_inval}
use phronesis.World.{
  World, Os, Call, signal, wait_for, slept, call, KillAnswer, delivered, no_process, refused,
}
use phronesis.Supervisor.Process.{
  wait_group, drain_group, kill_group, kill_tree, tries, sigterm, sigkill, is_delivered,
}

-- From one world to another, every call is a signal to one target, a wait for it, or a sleep.
pub data IsDirected (target : ℤ) (w : World) : World → Type 0 where
  still : IsDirected target w w
  signalled :
      {w' : World} (sig : ℕ)
      → IsDirected target w w'
      → IsDirected target w (call (signal target sig) w')
  waited : {w' : World} → IsDirected target w w' → IsDirected target w (call (wait_for target) w')
  slept_on : {w' : World} → IsDirected target w w' → IsDirected target w (call slept w')

if_IsDirected :
    (target : ℤ) (w : World) (b : Bool) (x y : World)
    → IsDirected target w x
    → IsDirected target w y
    → IsDirected target w (if b then x else y)
if_IsDirected target w true x y h k = h
if_IsDirected target w false x y h k = k

wait_group-IsDirected :
    (os : Os) (target : ℤ) (n : ℕ) (w w' : World)
    → IsDirected target w w'
    → IsDirected target w (wait_group os target n w')
unfolding wait_group
wait_group-IsDirected os target zero w w' h = h
wait_group-IsDirected os target (suc n) w w' h =
    if_IsDirected target w _ _ _ (signalled 0 h)
      (wait_group-IsDirected os target n w _ (slept_on (waited (signalled 0 h))))

status_IsDirected :
    (target : ℤ) (w : World) (o : Option ℤ) (x y : World)
    → IsDirected target w x
    → IsDirected target w y
    → IsDirected target w (elim o [ none ↦ x | some st ↦ y ])
status_IsDirected target w none x y h k = h
status_IsDirected target w (some st) x y h k = k

drain_group-IsDirected :
    (os : Os) (target : ℤ) (n : ℕ) (w w' : World)
    → IsDirected target w w'
    → IsDirected target w (drain_group os target n w')
unfolding drain_group
drain_group-IsDirected os target zero w w' h = h
drain_group-IsDirected os target (suc n) w w' h =
    status_IsDirected target w _ _ _ (waited h) (drain_group-IsDirected os target n w _ (waited h))

-- From one world to another, every call is a wait for one target.
pub data IsWaited (target : ℤ) (w : World) : World → Type 0 where
  done : IsWaited target w w
  once_more : {w' : World} → IsWaited target w w' → IsWaited target w (call (wait_for target) w')

drain_group-IsWaited :
    (os : Os) (target : ℤ) (n : ℕ) (w w' : World)
    → IsWaited target w w'
    → IsWaited target w (drain_group os target n w')
unfolding drain_group
drain_group-IsWaited os target zero w w' h = h
drain_group-IsWaited os target (suc n) w w' h = elim (Option-cases (os.wait_answer w'.calls)) [
  | inl e ↦ rw e (once_more h)
  | inr (st, e) ↦ rw e (drain_group-IsWaited os target n w _ (once_more h))
]

-- How the process group `g` is killed: with SIGTERM first, and SIGKILL if a later probe finds it
-- still there; every call is a signal to it, a wait for it or a sleep, and the last is a wait.
pub record IsKilled (os : Os) (g : ℤ) (w w' : World) : Type 0 where
  pub probed : World
  pub termed : IsDirected g (call (signal g sigterm) w) probed
  pub survived :
      os.kill_answer probed.calls ≡ delivered
      → IsDirected g (call (signal g sigkill) (call (signal g 0) probed)) w'
  pub left : os.kill_answer probed.calls ≢ delivered → IsWaited g (call (signal g 0) probed) w'
  pub rest : List Call
  pub drained : w'.calls ≡ wait_for g ∷ rest

-- The loop over waitpid ends behind a wait.
drain_group-waits :
    (os : Os) (g : ℤ) (n : ℕ) (w : World)
    → (cs : List Call) × ((drain_group os g (suc n) w).calls ≡ wait_for g ∷ cs)
unfolding drain_group
drain_group-waits os g zero w = elim (Option-cases (os.wait_answer w.calls)) [
  | inl e ↦ (w.calls, rw e refl)
  | inr (st, e) ↦ (w.calls, rw e refl)
]
drain_group-waits os g (suc n) w = elim (Option-cases (os.wait_answer w.calls)) [
  | inl e ↦ (w.calls, rw e refl)
  | inr (st, e) ↦ let (cs, h) = drain_group-waits os g n (call (wait_for g) w) in (cs, rw e h)
]

is_delivered_iff : (a : KillAnswer) → (is_delivered a ≡ true) ↔ (a ≡ delivered)
is_delivered_iff delivered = (λ e. refl, λ e. refl)
is_delivered_iff no_process = (λ e. absurd (ground arith), λ e. absurd (ground arith))
is_delivered_iff refused = (λ e. absurd (ground arith), λ e. absurd (ground arith))

-- From the probe behind the first waits on.
after_probe : Os → ℤ → World → World
after_probe os g w1 =
    let w2 = call (signal g 0) w1 in
    if is_delivered (os.kill_answer w1.calls)
    then wait_group os g tries (call (signal g sigkill) w2)
    else w2

kill_group_steps :
    (os : Os) (g : ℤ) (w : World)
    → kill_group os g w
      ≡ drain_group os g
          (os.group_size + 1)
          (after_probe os g (wait_group os g tries (call (signal g sigterm) w)))
unfolding kill_group after_probe
kill_group_steps os g w = refl

probe_survived :
    (os : Os) (g : ℤ) (n : ℕ) (w1 : World)
    → os.kill_answer w1.calls ≡ delivered
    → IsDirected g
        (call (signal g sigkill) (call (signal g 0) w1))
        (drain_group os g n (after_probe os g w1))
unfolding after_probe
probe_survived os g n w1 e = drain_group-IsDirected os g n _ _ (
    subst
      (λ (a : KillAnswer). IsDirected g (call (signal g sigkill) (call (signal g 0) w1)) (
        if is_delivered a
        then wait_group os g tries (call (signal g sigkill) (call (signal g 0) w1))
        else call (signal g 0) w1))
      (sym e) (wait_group-IsDirected os g tries _ _ still))

probe_left :
    (os : Os) (g : ℤ) (n : ℕ) (w1 : World)
    → os.kill_answer w1.calls ≢ delivered
    → IsWaited g (call (signal g 0) w1) (drain_group os g n (after_probe os g w1))
unfolding after_probe
probe_left os g n w1 d = elim (Bool-cases (is_delivered (os.kill_answer w1.calls))) [
  | inl e ↦ absurd (d ((is_delivered_iff (os.kill_answer w1.calls)).0 e))
  | inr e ↦ rw e (drain_group-IsWaited os g n _ _ done)
]

steps-IsKilled :
    (os : Os) (g : ℤ) (w w1 : World) (n : ℕ)
    → IsDirected g (call (signal g sigterm) w) w1
    → IsKilled os g w (drain_group os g (suc n) (after_probe os g w1))
steps-IsKilled os g w w1 n t =
    let (cs, h) = drain_group-waits os g n (after_probe os g w1) in
    record {
      probed = w1;
      termed = t;
      survived = probe_survived os g (suc n) w1;
      left = probe_left os g (suc n) w1;
      rest = cs;
      drained = h;
    }

kill_group-IsKilled : (os : Os) (g : ℤ) (w : World) → IsKilled os g w (kill_group os g w)
kill_group-IsKilled os g w =
    let w1 = wait_group os g tries (call (signal g sigterm) w) in
    let one_more : suc os.group_size ≡ os.group_size + 1 = omega arith in
    rw kill_group_steps (
      subst (λ (n : ℕ). IsKilled os g w (drain_group os g n (after_probe os g w1))) one_more
        (steps-IsKilled os g w w1 os.group_size (wait_group-IsDirected os g tries _ _ still)))

kill_tree_group :
    (os : Os) (n : ℕ) (w : World)
    → kill_tree os (pos (suc (suc n))) w ≡ (ok, kill_group os (negsuc (suc n)) w)
unfolding kill_tree
kill_tree_group os n w = ground arith

-- A kill of the process group `pgid` is refused without a call when pgid is 1 or less. Otherwise it
-- returns ok: the first call is SIGTERM to that group; SIGKILL to it follows if a later probe
-- finds it still there, and if not, only waits for it follow that probe; the last call is a wait; and no call is to the caller's group
-- (0), to every process (-1), to a single process or to another group.
pub kill_tree-IsKilled :
    (os : Os) (pgid : ℤ) (w : World)
    → ((gt_ℕ pgid 1 ≡ false) × (kill_tree os pgid w ≡ (err_inval, w)))
      ⊎ ((n : ℕ) × (pgid ≡ pos (suc (suc n)))
          × ((kill_tree os pgid w).0 ≡ ok)
          × IsKilled os (negsuc (suc n)) w (kill_tree os pgid w).1)
unfolding kill_tree
kill_tree-IsKilled os (negsuc m) w = inl (refl, refl)
kill_tree-IsKilled os (pos zero) w = inl (refl, refl)
kill_tree-IsKilled os (pos (suc zero)) w = inl (refl, refl)
kill_tree-IsKilled os (pos (suc (suc n))) w = inr (
  n,
  refl,
  rw kill_tree_group refl,
  rw kill_tree_group (kill_group-IsKilled os (negsuc (suc n)) w),
)
