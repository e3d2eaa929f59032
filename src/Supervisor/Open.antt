-- ===== src/Supervisor/Open.antt =====
-- phronesis_supervisor_open and the accessors of supervisor.c. Memory is taken to suffice.
use mathlib.Core.Path.{subst}
use phronesis.Base.{
  ℕ, Bool, true, false, ◌≡◌, refl, arith, zero, suc, not, Option, none, some, List, [], ◌∷◌, ◌++◌,
  if◌then◌else◌,
}
use phronesis.Base.CString.{Bytes, CString, codes, fits}
use phronesis.Policy.Types.{Rc, ok, err_inval, err_io, is_ok}
use phronesis.Policy.Env.{Env}
use phronesis.World.{World, Os}
use phronesis.Paths.Dirs.{ensure_dir}
use phronesis.Paths.Resolve.{Resolved, Resolution, resolved, unresolved, paths_resolve}
use phronesis.Supervisor.Types.{Slot, zero_slot, Supervisor, max_agents, path_max, slot_or}
use phronesis.Supervisor.Slots.Unique.{IsTable}

abbrev zero_slots : ℕ → List Slot
zero_slots zero = []
zero_slots (suc n) = zero_slot ∷ zero_slots n

-- calloc(1, sizeof(*s)), and the paths
unfoldable pub new_supervisor : Resolved → Bytes → Supervisor
new_supervisor r agents_dir = record {
  state_dir = r.state_dir;
  runtime_dir = r.runtime_dir;
  action_log = r.action_log;
  agents_dir = agents_dir;
  agents = zero_slots max_agents;
}

unfoldable pub open_resolved : Os → Resolution → World → (Rc × Option Supervisor) × World
unfolding new_supervisor
open_resolved os (unresolved rc) w = ((rc, none), w)
open_resolved os (resolved r) w =
    let agents_dir = r.runtime_dir ++ codes "/agents" in
    let (rc, w') = ensure_dir os (some agents_dir) 0o700 w in
    if not (fits path_max agents_dir)
    then ((err_inval, none), w)
    else if not (is_ok rc)
    then ((err_io, none), w')
    else ((ok, some (new_supervisor r agents_dir)), w')

unfoldable pub supervisor_open :
    Os → Env → CString → CString → World → (Rc × Option Supervisor) × World
unfolding open_resolved
supervisor_open os getenv state_dir runtime_dir w =
    let (r, w') = paths_resolve os getenv state_dir runtime_dir w in open_resolved os r w'

slot_or-zero_slots : (n i : ℕ) → slot_or (zero_slots n) i ≡ zero_slot
slot_or-zero_slots zero i = refl
slot_or-zero_slots (suc n) zero = refl
slot_or-zero_slots (suc n) (suc i) = slot_or-zero_slots n i

-- A supervisor that has just been opened has a table of sixteen free slots.
pub new_supervisor-IsTable :
    (r : Resolved) (agents_dir : Bytes) → IsTable (new_supervisor r agents_dir)
unfolding new_supervisor
new_supervisor-IsTable r agents_dir = record {
  size = refl;
  distinct = λ i j p q e. ground (arith, slot_or-zero_slots max_agents i);
}

step_opened :
    (b : Bool) (x y : (Rc × Option Supervisor) × World) (s : Supervisor)
    → (x.0.1 ≡ some s → IsTable s)
    → (y.0.1 ≡ some s → IsTable s)
    → (if b then x else y).0.1 ≡ some s
    → IsTable s
step_opened true x y s f g = f
step_opened false x y s f g = g

open_resolved-IsTable :
    (os : Os) (r : Resolution) (w : World) (s : Supervisor)
    → (open_resolved os r w).0.1 ≡ some s
    → IsTable s
unfolding open_resolved
open_resolved-IsTable os (unresolved rc) w s h = absurd (ground arith)
open_resolved-IsTable os (resolved r) w s h =
    let agents_dir = r.runtime_dir ++ codes "/agents" in
    let (rc, w') = ensure_dir os (some agents_dir) 0o700 w in
    step_opened (not (fits path_max agents_dir)) ((err_inval, none), w) _ s
      (λ e. absurd (ground arith))
      (step_opened (not (is_ok rc)) ((err_io, none), w')
        ((ok, some (new_supervisor r agents_dir)), w') s (λ e. absurd (ground arith))
        (λ e.
          let t : new_supervisor r agents_dir ≡ s = ground arith in
          subst IsTable t (new_supervisor-IsTable r agents_dir)))
      h

pub supervisor_open-IsTable :
    (os : Os) (getenv : Env) (state_dir runtime_dir : CString) (w : World) (s : Supervisor)
    → (supervisor_open os getenv state_dir runtime_dir w).0.1 ≡ some s
    → IsTable s
unfolding supervisor_open
supervisor_open-IsTable os getenv state_dir runtime_dir w s h =
    let (r, w') = paths_resolve os getenv state_dir runtime_dir w in
    open_resolved-IsTable os r w' s h
