-- ===== src/Paths/Dirs.antt =====
-- join3, mkdir_one and phronesis_paths_ensure_dir of paths.c.
use phronesis.Base.{
  ℕ, Bool, true, false, ◌&&◌, not, Option, none, some, [], ◌∷◌, ◌++◌, ◌==◌, leb, length,
  if◌then◌else◌,
}
use phronesis.Base.CString.{Bytes, CString, is_set, or_empty, fits}
use phronesis.Policy.Types.{Rc, ok, err_inval, err_io, is_ok}
use phronesis.World.{
  World, Os, Node, directory, regular, call, put_node, stat_of, make_dir, MkdirAnswer, made,
  directory_there, file_there, not_made,
}

-- PHRONESIS_PATH_MAX
abbrev pub path_max : ℕ
path_max = 512

-- join3 with out and n > 0; `some` holds what is stored with PHRONESIS_OK.
unfoldable pub join3 : ℕ → CString → CString → CString → Option Bytes
join3 n none b c = none
join3 n (some a) b c =
    let joined =
      if is_set c
      then a ++ (b'/' ∷ (or_empty b ++ (b'/' ∷ or_empty c)))
      else if is_set b
      then a ++ (b'/' ∷ or_empty b)
      else a in
    if fits n joined then some joined else none

-- From mkdir on, for a path that stat has not found.
unfoldable pub mkdir_new : MkdirAnswer → Bytes → World → Rc × World
mkdir_new made path w = (ok, put_node path (some directory) w)
mkdir_new directory_there path w = (ok, put_node path (some directory) (call (stat_of path) w))
mkdir_new file_there path w = (err_io, put_node path (some (regular [])) (call (stat_of path) w))
mkdir_new not_made path w = (err_io, w)

-- What stat has found; `false` is a failure other than ENOENT.
unfoldable pub mkdir_stat : Os → Bool → Option Node → Bytes → ℕ → World → Rc × World
unfolding mkdir_new
mkdir_stat os false n path mode w = (err_io, w)
mkdir_stat os true (some directory) path mode w = (ok, w)
mkdir_stat os true (some (regular b)) path mode w = (err_io, w)
mkdir_stat os true none path mode w =
    mkdir_new (os.mkdir_answer w.calls) path (call (make_dir path mode) w)

unfoldable pub mkdir_one : Os → Bytes → ℕ → World → Rc × World
unfolding mkdir_stat
mkdir_one os [] mode w = (err_inval, w)
mkdir_one os (c ∷ path) mode w =
    mkdir_stat os (os.io_ok w.calls) (w.node (c ∷ path)) (c ∷ path) mode
      (call (stat_of (c ∷ path)) w)

-- The loop over the '/' of the path: `read` is buf[0 .. i - 1], and `skip` tells that the byte before
-- was a '/' that has been treated, so that a '/' here is passed over.
unfoldable pub ensure_parents : Os → ℕ → Bytes → Bool → Bytes → World → Rc × World
ensure_parents os mode read skip [] w = mkdir_one os read mode w
ensure_parents os mode read skip (c ∷ rest) w =
    let made = mkdir_one os read mode w in
    let treated = c == b'/' && not skip in
    let later =
      ensure_parents os mode (read ++ c ∷ []) (c == b'/') rest (if treated then made.1 else w) in
    if treated && not (is_ok made.0) then made else later

unfoldable pub ensure_dir : Os → CString → ℕ → World → Rc × World
unfolding ensure_parents
ensure_dir os none mode w = (err_inval, w)
ensure_dir os (some []) mode w = (err_inval, w)
ensure_dir os (some (c ∷ path)) mode w =
    if leb path_max (length (c ∷ path))
    then (err_inval, w)
    else ensure_parents os mode (c ∷ []) false path w
