-- ===== src/Beneath/Root.antt =====
-- has_dotdot, is_fs_root, bad_root and phronesis_beneath_rel of beneath.c.
pub mod Dots
use phronesis.Base.{
  ℕ, ◌≡◌, Bool, true, false, ◌&&◌, ◌||◌, not, Option, none, some, List, [], ◌∷◌, ◌==◌, leb, ltb,
  length, if◌then◌else◌,
}
use phronesis.Base.CString.{Bytes, CString, codes, or_empty, nonempty, strip_prefix}
use phronesis.Path.Lexical.{head_is, next, at_boundary, trim_slashes}

-- for (c = p; *c; c++), where `start` tells that c == p or c[-1] == '/'
unfoldable pub dotdot_from : Bool → Bytes → Bool
unfolding head_is next at_boundary
dotdot_from start [] = false
dotdot_from start (c ∷ s) =
    let later = dotdot_from (c == b'/') s in
    c == b'.' && head_is b'.' s && at_boundary (next s) && start || later

unfoldable pub has_dotdot : CString → Bool
unfolding dotdot_from
has_dotdot none = true
has_dotdot (some p) = dotdot_from true p

-- for (p = root; *p; p++)
unfoldable pub root_from : Bytes → Bool
unfolding at_boundary
root_from [] = true
root_from (c ∷ s) =
    let later = root_from s in if c == b'/' || c == b'.' && at_boundary s then later else false

unfoldable pub is_fs_root : CString → Bool
unfolding root_from head_is
is_fs_root none = false
is_fs_root (some root) = head_is b'/' root && root_from root

unfoldable pub bad_root : CString → Bool
unfolding is_fs_root has_dotdot
bad_root root = not (head_is b'/' (or_empty root)) || is_fs_root root || has_dotdot root

-- What follows the root in an absolute path.
unfoldable pub rel_behind : Bytes → ℕ → Option Bytes
rel_behind [] n = if ltb n 2 then none else some (codes ".")
rel_behind (c ∷ rel) n =
    if not (c == b'/')
    then none
    else if leb n (length rel)
    then none
    else if has_dotdot (some rel)
    then none
    else some rel

-- The buffer `rel` is given; `some` holds what is stored with 0, `none` is -1.
unfoldable pub beneath_rel : CString → CString → ℕ → Option Bytes
unfolding rel_behind bad_root
beneath_rel none path n = none
beneath_rel (some root) none n = none
beneath_rel (some root) (some path) n =
    if n == 0
    then none
    else if not (head_is b'/' path)
    then (if not (nonempty path) || has_dotdot (some path) || leb n (length path)
        then none
        else some path)
    else if bad_root (some root)
    then none
    else elim (strip_prefix (trim_slashes root) path) [
      | none ↦ none
      | some behind ↦ rel_behind behind n
    ]
