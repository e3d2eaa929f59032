-- ===== src/Beneath/Root/Dots.antt =====
-- The byte loops of beneath.c in terms of the components of a path.
use phronesis.Base.{
  ℕ, ◌≡◌, refl, Bool, true, false, ◌&&◌, ◌||◌, not, some, List, [], ◌∷◌, ◌==◌, arith,
}
use phronesis.Base.CString.{Bytes, codes, nonempty, strcmp_eq}
use phronesis.Path.Components.{first, later, split}
use phronesis.Path.Lexical.{head_is, next, at_boundary}
use phronesis.Beneath.Root.{dotdot_from, has_dotdot, root_from, is_fs_root, bad_root}

abbrev pub is_dotdot : Bytes → Bool
is_dotdot x = strcmp_eq x (codes "..")

-- Some component is "..".
unfoldable pub any_dotdot : List Bytes → Bool
any_dotdot [] = false
any_dotdot (x ∷ xs) = is_dotdot x || any_dotdot xs

first_dotdot :
    (c : ℕ) (s : Bytes)
    → is_dotdot (first (c ∷ s)) ≡ (c == b'.' && head_is b'.' s && at_boundary (next s))
unfolding first head_is next at_boundary strcmp_eq
first_dotdot c [] = ground arith
first_dotdot c (d ∷ []) = ground arith
first_dotdot c (d ∷ e ∷ s) = ground arith

-- Inside a component the loop looks for the components behind it only.
dotdot_from-components :
    (s : Bytes)
    → (dotdot_from false s ≡ any_dotdot (later s)) × (dotdot_from true s ≡ any_dotdot (split s))
unfolding dotdot_from any_dotdot later
dotdot_from-components [] = unfold first strcmp_eq in (refl, refl)
dotdot_from-components (c ∷ s) = (
  ground (arith, dotdot_from-components s),
  ground (arith, dotdot_from-components s, first_dotdot c s),
)

-- The byte loop finds ".." exactly when a component of the path is "..".
pub has_dotdot-components : (s : Bytes) → has_dotdot (some s) ≡ any_dotdot (split s)
unfolding has_dotdot
has_dotdot-components s = (dotdot_from-components s).1

-- No component but "." has a name.
unfoldable pub only_dots : List Bytes → Bool
only_dots [] = true
only_dots (x ∷ xs) = (not (nonempty x) || strcmp_eq x (codes ".")) && only_dots xs

root_from-only_dots : (s : Bytes) → root_from s ≡ only_dots (split s)
unfolding root_from only_dots first later at_boundary strcmp_eq
root_from-only_dots [] = refl
root_from-only_dots (c ∷ []) = ground arith
root_from-only_dots (c ∷ d ∷ s) = ground (arith, root_from-only_dots (d ∷ s))

-- A root is refused exactly when it is relative, has no component with a name but ".", so that it
-- is the root of the file system, or has a component "..".
pub bad_root-components :
    (s : Bytes)
    → bad_root (some s) ≡ (not (head_is b'/' s) || only_dots (split s) || any_dotdot (split s))
unfolding bad_root is_fs_root
bad_root-components s = ground (arith, root_from-only_dots s, has_dotdot-components s)
