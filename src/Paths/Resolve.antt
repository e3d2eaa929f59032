-- ===== src/Paths/Resolve.antt =====
-- ensure_state_tree and phronesis_paths_resolve of paths.c.
use phronesis.Base.{ℕ, ◌||◌, not, Option, none, some, if◌then◌else◌}
use phronesis.Base.CString.{Bytes, CString, codes, is_set, or_empty, fits, strcmp_eq}
use phronesis.Policy.Types.{Rc, ok, err_inval, err_io, err_state, is_ok}
use phronesis.Policy.Env.{Env}
use phronesis.World.{World, Os}
use phronesis.Paths.Dirs.{join3, ensure_dir, path_max}

-- 0700
abbrev private_mode : ℕ
private_mode = 0o700

-- One directory of the state tree, joined to the state directory.
unfoldable pub ensure_child : Os → Bytes → Bytes → World → Rc × World
ensure_child os state name w = elim (join3 path_max (some state) (some name) none) [
  | none ↦ (err_inval, w)
  | some buf ↦
      let (rc, w') = ensure_dir os (some buf) private_mode w in
      if is_ok rc then (ok, w') else (err_io, w')
]

unfoldable pub ensure_state_tree : Os → Bytes → World → Rc × World
unfolding ensure_child
ensure_state_tree os state w =
    let (rc, w1) = ensure_dir os (some state) private_mode w in
    let (log, w2) = ensure_child os state (codes "log") w1 in
    if not (is_ok rc)
    then (err_io, w1)
    else if not (is_ok log)
    then (log, w2)
    else ensure_child os state (codes "phronesis") w2

-- snprintf(out, n, "%s", s) that must not be cut
abbrev copied : ℕ → Bytes → Option Bytes
copied n s = if fits n s then some s else none

-- A directory chosen from the environment, or the error.
pub data Chosen : Type 0 where
  chosen : Bytes → Chosen
  rejected : Rc → Chosen

abbrev or_inval : Option Bytes → Chosen
or_inval none = rejected err_inval
or_inval (some s) = chosen s

-- join3(tmp, ..., home, ".local/state"), and then "phronesis" behind it
unfoldable pub home_state : Bytes → Chosen
home_state home = elim (join3 path_max (some home) (some (codes ".local/state")) none) [
  | none ↦ rejected err_inval
  | some tmp ↦ or_inval (join3 path_max (some tmp) (some (codes "phronesis")) none)
]

-- The state directory; every buffer of the caller has PHRONESIS_PATH_MAX bytes.
unfoldable pub choose_state : Env → CString → Chosen
unfolding home_state
choose_state getenv state_override =
    let env_state = getenv (codes "PHRONESIS_STATE_DIR") in
    let xdg_state = getenv (codes "XDG_STATE_HOME") in
    let home = getenv (codes "HOME") in
    if is_set state_override
    then or_inval (copied path_max (or_empty state_override))
    else if is_set env_state
    then or_inval (copied path_max (or_empty env_state))
    else if is_set xdg_state
    then or_inval (join3 path_max xdg_state (some (codes "phronesis")) none)
    else if is_set home
    then home_state (or_empty home)
    else rejected err_state

unfoldable pub choose_runtime : Env → CString → Bytes → Chosen
choose_runtime getenv runtime_override state_dir =
    let env_runtime = getenv (codes "PHRONESIS_RUNTIME_DIR") in
    let xdg_runtime = getenv (codes "XDG_RUNTIME_DIR") in
    if is_set runtime_override
    then or_inval (copied path_max (or_empty runtime_override))
    else if is_set env_runtime
    then or_inval (copied path_max (or_empty env_runtime))
    else if is_set xdg_runtime
    then or_inval (join3 path_max xdg_runtime (some (codes "phronesis")) none)
    else or_inval (join3 path_max (some state_dir) (some (codes "run")) none)

unfoldable pub choose_log : Env → Bytes → Chosen
choose_log getenv state_dir =
    let env_log = getenv (codes "PHRONESIS_ACTION_LOG") in
    if is_set env_log
    then or_inval (copied path_max (or_empty env_log))
    else or_inval
        (join3 path_max (some state_dir) (some (codes "log")) (some (codes "actions.jsonl")))

pub record Resolved : Type 0 where
  pub state_dir : Bytes
  pub runtime_dir : Bytes
  pub action_log : Bytes

pub data Resolution : Type 0 where
  resolved : Resolved → Resolution
  unresolved : Rc → Resolution

-- Behind the choices: the directories are made.
unfoldable pub make_dirs : Os → Resolved → World → Resolution × World
unfolding ensure_state_tree
make_dirs os r w =
    let (tree, w1) = ensure_state_tree os r.state_dir w in
    let (run, w2) = ensure_dir os (some r.runtime_dir) private_mode w1 in
    if not (is_ok tree)
    then (unresolved err_io, w1)
    else if not (is_ok run)
    then (unresolved err_io, w2)
    else (resolved r, w2)

unfoldable pub resolve_log : Os → Env → Bytes → Bytes → World → Resolution × World
unfolding make_dirs choose_log
resolve_log os getenv state runtime w =
    if strcmp_eq runtime (codes "/tmp") || strcmp_eq runtime (codes "/tmp/")
    then (unresolved err_state, w)
    else elim (choose_log getenv state) [
      | rejected rc ↦ (unresolved rc, w)
      | chosen log ↦
          make_dirs os (record { state_dir = state; runtime_dir = runtime; action_log = log }) w
    ]

unfoldable pub paths_resolve : Os → Env → CString → CString → World → Resolution × World
unfolding choose_state choose_runtime resolve_log
paths_resolve os getenv state_override runtime_override w =
    elim (choose_state getenv state_override) [
      | rejected rc ↦ (unresolved rc, w)
      | chosen state ↦ elim (choose_runtime getenv runtime_override state) [
        | rejected rc ↦ (unresolved rc, w)
        | chosen runtime ↦ resolve_log os getenv state runtime w
      ]
    ]
