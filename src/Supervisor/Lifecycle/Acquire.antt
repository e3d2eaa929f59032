-- ===== src/Supervisor/Lifecycle/Acquire.antt =====
-- What phronesis_supervisor_start and phronesis_supervisor_bind share: the checks on their
-- arguments, and the way to a slot for the agent.
use phronesis.Base.{ℕ, Bool, ◌&&◌, ◌||◌, not, none, some, if◌then◌else◌}
use phronesis.Base.CString.{Bytes, CString, is_set, or_empty}
use phronesis.Policy.Types.{Rc, err_notfound, err_state}
use phronesis.World.{World, Os}
use phronesis.Supervisor.Types.{Supervisor, slot_at, put_slot, is_running, mode_max, path_max}
use phronesis.Supervisor.Ids.{valid_id, valid_token}
use phronesis.Supervisor.Slots.{Loaded, loaded, not_loaded, load_agent, alloc_mem, fresh_slot}
use phronesis.Supervisor.Process.{reap_slot}

-- A mode or a workspace that is given is a token.
unfoldable pub valid_option : CString → ℕ → Bool
valid_option s maxlen = not (is_set s) || valid_token (or_empty s) maxlen

unfoldable pub valid_agent : CString → CString → CString → Bool
unfolding valid_option
valid_agent agent_id mode workspace =
    valid_id agent_id && valid_option mode mode_max && valid_option workspace path_max

-- The slot to fill, the slot of an agent that runs, or the error.
pub data Acquired : Type 0 where
  vacant : ℕ → Acquired
  occupied : ℕ → Acquired
  refused : Rc → Acquired

-- reap_slot(a) on s->agents[i]
unfoldable pub reap_at : Os → Supervisor → ℕ → World → Supervisor × World
unfolding reap_slot
reap_at os s i w = let (a, w') = reap_slot os (slot_at s i) w in (put_slot s i a, w')

-- a = alloc_mem(s); snprintf(a->id, sizeof(a->id), "%s", agent_id); a valid id fits.
unfoldable pub acquire_new : Supervisor → Bytes → Acquired × Supervisor
unfolding alloc_mem
acquire_new s id = elim (alloc_mem s) [
  | none ↦ (refused err_state, s)
  | some (i, s') ↦ (vacant i, put_slot s' i (record fresh_slot { id = id }))
]

unfoldable pub acquire_loaded :
    Os → Bytes → Loaded → Supervisor → World → Acquired × Supervisor × World
unfolding reap_at acquire_new
acquire_loaded os id (loaded i) s w =
    let (s', w') = reap_at os s i w in
    (if is_running (slot_at s' i).state then occupied i else vacant i, s', w')
acquire_loaded os id (not_loaded err_notfound) s w = let (a, s') = acquire_new s id in (a, s', w)
acquire_loaded os id (not_loaded rc) s w = (refused rc, s, w)

unfoldable pub acquire : Os → Supervisor → Bytes → World → Acquired × Supervisor × World
unfolding load_agent acquire_loaded
acquire os s id w = let (l, s', w') = load_agent os s id w in acquire_loaded os id l s' w'
