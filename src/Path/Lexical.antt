-- ===== src/Path/Lexical.antt =====
-- Tests on the byte at a pointer into a path, and the loop that drops trailing slashes, which the
-- path functions of policy.c, policy_janet.c and beneath.c share.
use phronesis.Base.{
  ℕ, ◌≡◌, refl, Bool, true, false, List, [], ◌∷◌, ◌++◌, append-nil, arith, ◌==◌, if◌then◌else◌,
}
use phronesis.Base.CString.{Bytes}
use phronesis.Path.Components.{names, names-append_slash, keep_names, first, later}

-- p[0] == c
unfoldable pub head_is : ℕ → Bytes → Bool
head_is c [] = false
head_is c (d ∷ s) = d == c

-- p + 1
unfoldable pub next : Bytes → Bytes
next [] = []
next (d ∷ s) = s

-- p[0] == '/' || p[0] == '\0'
unfoldable pub at_boundary : Bytes → Bool
at_boundary [] = true
at_boundary (d ∷ s) = d == b'/'

-- The string without the slashes at its end.
unfoldable pub drop_slashes : Bytes → Bytes
drop_slashes [] = []
drop_slashes (c ∷ s) = elim (drop_slashes s) [
  | [] ↦ if c == b'/' then [] else c ∷ []
  | d ∷ t ↦ c ∷ d ∷ t
]

-- n = strlen(s); while (n > 1 && s[n - 1] == '/') n--;
unfoldable pub trim_slashes : Bytes → Bytes
trim_slashes [] = []
trim_slashes (c ∷ s) = c ∷ drop_slashes s

-- What the slashes at the end hold: nothing.
first-drop_slashes : (s : Bytes) → first (drop_slashes s) ≡ first s
unfolding first drop_slashes
first-drop_slashes [] = refl
first-drop_slashes (c ∷ s) = ground (arith, first-drop_slashes s)

keep_names-later-drop_slashes :
    (s : Bytes) → keep_names (later (drop_slashes s)) ≡ keep_names (later s)
unfolding first later drop_slashes keep_names
keep_names-later-drop_slashes [] = refl
keep_names-later-drop_slashes (c ∷ s) =
    ground (arith, first-drop_slashes s, keep_names-later-drop_slashes s)

-- Trimming keeps every name.
pub names-trim_slashes : (s : Bytes) → names (trim_slashes s) ≡ names s
unfolding trim_slashes first later keep_names
names-trim_slashes [] = refl
names-trim_slashes (c ∷ s) = ground (arith, first-drop_slashes s, keep_names-later-drop_slashes s)

-- A path that goes on from a directory behind the end of the string or a '/' has its names first.
pub names-append_boundary :
    (a b : Bytes) → at_boundary b ≡ true → (r : List Bytes) × (names (a ++ b) ≡ names a ++ r)
unfolding at_boundary
names-append_boundary a [] h = ([], simp append-nil)
names-append_boundary a (c ∷ b) h =
    let e : c ≡ b'/' = ground arith in (names b, rw e (names-append_slash a b))
