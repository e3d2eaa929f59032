-- ===== src/Supervisor/Runs.antt =====
-- The operations of the handle of supervisor.c one after another, with any changes of the world in
-- between.
pub mod Keeps
pub mod Looks
pub mod Stable
pub mod Rests
use phronesis.Base.{List}
use phronesis.Base.Int.{ℤ}
use phronesis.Base.CString.{Bytes, CString}
use phronesis.Policy.Env.{Env}
use phronesis.World.{World, Os}
use phronesis.Supervisor.Types.{Supervisor}
use phronesis.Supervisor.Lifecycle.Start.{supervisor_start}
use phronesis.Supervisor.Lifecycle.Bind.{supervisor_bind}
use phronesis.Supervisor.Lifecycle.Stop.{supervisor_stop}
use phronesis.Supervisor.Lifecycle.Status.{supervisor_status, require_running_agent}
use phronesis.Supervisor.Check.{policy_check}

-- One call on the handle, in any world.
pub data HandleStep (s : Supervisor) : Supervisor → Type 0 where
  start :
      (os : Os) (agent_id mode workspace : CString) (argv : List Bytes) (w : World)
      → HandleStep s (supervisor_start os s agent_id mode workspace argv w).1
  bind :
      (os : Os) (agent_id mode workspace : CString) (pid : ℤ) (w : World)
      → HandleStep s (supervisor_bind os s agent_id mode workspace pid w).1
  stop :
      (os : Os) (agent_id : CString) (w : World) → HandleStep s (supervisor_stop os s agent_id w).1
  status :
      (os : Os) (agent_id : CString) (w : World)
      → HandleStep s (supervisor_status os s agent_id w).1
  admits :
      (os : Os) (agent_id : CString) (w : World)
      → HandleStep s (require_running_agent os s agent_id w).1
  check :
      (os : Os) (getenv : Env) (agent_id tool action path : CString) (w : World)
      → HandleStep s (policy_check os getenv s agent_id tool action path w).1

pub data Steps (s : Supervisor) : Supervisor → Type 0 where
  here : Steps s s
  next : {t u : Supervisor} → Steps s t → HandleStep t u → Steps s u
