-- ===== src/Policy/Workspace.antt =====
-- is_clean_abs_path and path_under_workspace of policy.c.
pub mod Containment
pub mod Complete
use phronesis.Base.{
  ℕ, Bool, true, false, ◌&&◌, ◌||◌, not, Option, none, some, List, [], ◌∷◌, ◌==◌, if◌then◌else◌,
}
use phronesis.Base.CString.{Bytes, CString, is_set, or_empty, strip_prefix}
use phronesis.Path.Lexical.{head_is, next, at_boundary, trim_slashes}

-- One turn of the loop at a '/': `r` is what follows it, `rest` what the later turns return.
unfoldable pub after_slash : Bytes → Bool → Bool
unfolding head_is next at_boundary
after_slash [] rest = true
after_slash (d ∷ r) rest =
    if d == b'/'
    then false
    else if d == b'.' && at_boundary r
    then false
    else if d == b'.' && head_is b'.' r && at_boundary (next r)
    then false
    else rest

-- for (p = path; *p; p++)
unfoldable pub clean_from : Bytes → Bool
unfolding after_slash
clean_from [] = true
clean_from (c ∷ r) = let rest = clean_from r in if c == b'/' then after_slash r rest else rest

unfoldable pub is_clean_abs_path : Bytes → Bool
unfolding clean_from head_is
is_clean_abs_path path = head_is b'/' path && clean_from path

-- strncmp(path, workspace, wl) == 0, and path[wl] is '\0' or '/'
unfoldable pub under_prefix : Bytes → Bytes → Bool
unfolding at_boundary
under_prefix prefix path = elim (strip_prefix prefix path) [ none ↦ false | some r ↦ at_boundary r ]

unfoldable pub path_under_workspace : CString → CString → Bool
unfolding under_prefix trim_slashes
path_under_workspace workspace path =
    if not (is_set workspace) || not (is_set path)
    then false
    else if not (is_clean_abs_path (or_empty workspace)) || not (is_clean_abs_path (or_empty path))
    then false
    else under_prefix (trim_slashes (or_empty workspace)) (or_empty path)
