-- ===== src/Cgroup.antt =====
-- src/cgroup.c, as built on Linux: best-effort control groups.
use phronesis.Base.{
  ℕ, ◌+◌, Bool, false, ◌&&◌, ◌||◌, not, Option, none, some, List, [], ◌∷◌, ◌++◌, ◌==◌, ltb, length,
  if◌then◌else◌,
}
use phronesis.Base.Int.{ℤ, gt_ℕ}
use phronesis.Base.CString.{Bytes, CString, codes, fits, nonempty, strcmp_eq, strip_prefix}
use phronesis.Base.Decimal.{print_ℤ}
use phronesis.Policy.Types.{Rc, ok, err_inval, err_io, is_ok}
use phronesis.World.{World, Os, call, put_node, removed}
use phronesis.World.Files.{fopen_r, fopen_w, write_close}
use phronesis.Paths.Dirs.{ensure_dir, path_max}
use phronesis.ActionLog.Last.{until_nul, drop_eol}

-- 0 is `true`, -1 is `false`.
unfoldable pub write_str : Os → Bytes → Bytes → World → Bool × World
write_str os path text w =
    let (opened, w') = fopen_w os path w in
    let written = write_close os path text w' in if opened then written else (false, w')

-- The lines that fgets returns into a buffer of path_max bytes, each up to its NUL.
unfoldable pub lines_of : Bytes → Bytes → List Bytes
unfolding until_nul
lines_of line [] = if nonempty line then until_nul line ∷ [] else []
lines_of line (c ∷ s) =
    let line' = line ++ c ∷ [] in
    let full = c == b'\n' || length line' + 1 == path_max in
    let rest = lines_of (if full then [] else line') s in
    if full then until_nul line' ∷ rest else rest

-- strstr(line, "::") + 2
unfoldable pub behind_colons : Bytes → Option Bytes
behind_colons [] = none
behind_colons (c ∷ s) = elim (strip_prefix (codes "::") (c ∷ s)) [
  | some r ↦ some r
  | none ↦ behind_colons s
]

-- The first line with "::" gives the path behind it, if it fits.
unfoldable pub find_rel : ℕ → List Bytes → Option Bytes
unfolding behind_colons drop_eol
find_rel n [] = none
find_rel n (line ∷ rest) = elim (behind_colons line) [
  | none ↦ find_rel n rest
  | some p ↦ if fits n (drop_eol p) then some (drop_eol p) else none
]

unfoldable pub self_cgroup_rel : Os → ℕ → World → Option Bytes × World
unfolding lines_of find_rel
self_cgroup_rel os n w =
    let (found, w') = fopen_r os (codes "/proc/self/cgroup") w in
    elim found [ none ↦ (none, w') | some text ↦ (find_rel n (lines_of [] text), w') ]

-- The directory of the process's own group; `none` if the prefix and the path do not fit.
unfoldable pub cgroup_base : Bytes → Option Bytes
cgroup_base rel =
    let base = codes "/sys/fs/cgroup" ++ rel in
    if not (nonempty rel) || strcmp_eq rel (codes "/")
    then some (codes "/sys/fs/cgroup")
    else if ltb path_max (length rel + 15) || not (fits path_max base)
    then none
    else some base

-- From the path of the child on; the result is what path_out holds, with PHRONESIS_OK.
unfoldable pub create_child : Os → Bytes → Bytes → ℕ → World → Bytes × World
create_child os base path path_len w =
    let controllers = base ++ codes "/cgroup.subtree_control" in
    let w1 =
      if fits path_max controllers
      then (write_str os controllers (codes "+pids +memory") w).1
      else w in
    let (rc, w2) = ensure_dir os (some path) 0o755 w1 in
    if is_ok rc && fits path_len path then (path, w2) else ([], w2)

unfoldable pub create_under : Os → Option Bytes → Bytes → ℕ → World → Bytes × World
unfolding create_child
create_under os none agent_id path_len w = ([], w)
create_under os (some base) agent_id path_len w =
    let path = base ++ (codes "/phronesis-" ++ agent_id) in
    if ltb path_max (length base + 1 + length agent_id + 12) || not (fits path_max path)
    then ([], w)
    else create_child os base path path_len w

-- The status, what path_out holds, and the world.
unfoldable pub cgroup_create : Os → CString → CString → ℕ → World → Rc × Bytes × World
unfolding self_cgroup_rel cgroup_base create_under
cgroup_create os none agent_id path_len w = (err_inval, [], w)
cgroup_create os (some runtime_dir) none path_len w = (err_inval, [], w)
cgroup_create os (some runtime_dir) (some agent_id) path_len w =
    let (rel, w') = self_cgroup_rel os path_max w in
    if path_len == 0 then (err_inval, [], w) else elim rel [
      | none ↦ (ok, [], w')
      | some r ↦
          let (path, w'') = create_under os (cgroup_base r) agent_id path_len w' in (ok, path, w'')
    ]

unfoldable pub cgroup_attach : Os → Bytes → ℤ → World → Rc × World
unfolding write_str
cgroup_attach os cgroup_path pid w =
    let procs = cgroup_path ++ codes "/cgroup.procs" in
    let (written, w') = write_str os procs (print_ℤ pid) w in
    if not (nonempty cgroup_path) || not (gt_ℕ pid 0)
    then (err_inval, w)
    else if not (fits path_max procs) || not (fits 32 (print_ℤ pid))
    then (err_inval, w)
    else if written
    then (ok, w')
    else (err_io, w')

unfoldable pub cgroup_kill : Os → Bytes → World → Rc × World
unfolding write_str
cgroup_kill os cgroup_path w =
    let killp = cgroup_path ++ codes "/cgroup.kill" in
    let (written, w') = write_str os killp (codes "1") w in
    if not (nonempty cgroup_path)
    then (err_inval, w)
    else if not (fits path_max killp)
    then (err_inval, w)
    else if written
    then (ok, w')
    else (err_io, w')

unfoldable pub cgroup_remove : Os → Bytes → World → World
cgroup_remove os cgroup_path w =
    if nonempty cgroup_path
    then (if os.io_ok w.calls
        then put_node cgroup_path none (call (removed cgroup_path) w)
        else call (removed cgroup_path) w)
    else w
