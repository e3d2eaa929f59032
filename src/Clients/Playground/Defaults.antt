-- ===== src/Clients/Playground/Defaults.antt =====
-- What pd_supervisor_open leaves.
use phronesis.Base.{◌≡◌, Option, none, some, arith}
use phronesis.Base.CString.{Bytes, CString, codes, strcmp_eq}
use phronesis.Policy.Env.{Env}
use phronesis.Policy.Types.{
  Rc, ok, err_inval, err_exists, err_notfound, err_io, err_spawn, err_state,
}
use phronesis.World.{World, Os}
use phronesis.Supervisor.Types.{Supervisor}
use phronesis.Supervisor.Slots.Unique.{IsTable}
use phronesis.Supervisor.Open.{supervisor_open, supervisor_open-IsTable}
use phronesis.Clients.Playground.{pd_defaults, pd_default_pack_spec, dir_or, pd_supervisor_open}

-- The variables that were set keep their values, and the specification of the packs has the default
-- where it was unset.
pub record HasDefaults (before after : Env) : Type 0 where
  pub kept : (n v : Bytes) → before n ≡ some v → after n ≡ some v
  pub pack_spec :
      before (codes "PHRONESIS_JANET_PACK") ≡ none
      → after (codes "PHRONESIS_JANET_PACK") ≡ some pd_default_pack_spec

pd_defaults-HasDefaults : (getenv : Env) → HasDefaults getenv (pd_defaults getenv)
unfolding pd_defaults strcmp_eq
pd_defaults-HasDefaults getenv = record {
  kept = λ n v h. ground arith;
  pack_spec = λ h. ground arith;
}

opened_ok :
    (rc : Rc) (s : Option Supervisor) (t : Supervisor)
    → (elim rc [ ok ↦ s | _ ↦ none ]) ≡ some t
    → s ≡ some t
opened_ok ok s t h = h
opened_ok err_inval s t h = absurd (ground arith)
opened_ok err_exists s t h = absurd (ground arith)
opened_ok err_notfound s t h = absurd (ground arith)
opened_ok err_io s t h = absurd (ground arith)
opened_ok err_spawn s t h = absurd (ground arith)
opened_ok err_state s t h = absurd (ground arith)

-- Opening from the page keeps each environment variable that is set and sets the pack specification
-- that is not, and a supervisor that it returns has a table of sixteen slots, no two in use with one
-- id.
pub pd_supervisor_open-HasDefaults :
    (os : Os) (getenv : Env) (state runtime : CString) (w : World)
    → let opened = (pd_supervisor_open os getenv state runtime w).0 in
      HasDefaults getenv opened.1 × ((s : Supervisor) → opened.0 ≡ some s → IsTable s)
unfolding pd_supervisor_open
pd_supervisor_open-HasDefaults os getenv state runtime w =
    let dir = dir_or (codes "/pd-state") state in
    let run_dir = dir_or (codes "/pd-runtime") runtime in
    let r = (supervisor_open os (pd_defaults getenv) dir run_dir w).0 in
    (
      pd_defaults-HasDefaults getenv,
      λ s h.
          supervisor_open-IsTable os (pd_defaults getenv) dir run_dir w s (opened_ok r.0 r.1 s h),
    )
