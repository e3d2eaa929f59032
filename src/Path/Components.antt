-- ===== src/Path/Components.antt =====
-- The components of a path, the strings between its '/' bytes: an independent description of what
-- the byte loops over paths look for.
use phronesis.Base.{
  ◌≡◌, refl, Bool, true, false, ◌&&◌, ◌||◌, not, List, [], ◌∷◌, ◌++◌, arith, ◌==◌, if◌then◌else◌,
}
use phronesis.Base.CString.{Bytes, nonempty, codes, strcmp_eq}

-- The bytes before the first '/'.
unfoldable pub first : Bytes → Bytes
first [] = []
first (c ∷ s) = if c == b'/' then [] else c ∷ first s

-- The components behind the first '/'.
unfoldable pub later : Bytes → List Bytes
later [] = []
later (c ∷ s) = if c == b'/' then first s ∷ later s else later s

abbrev pub split : Bytes → List Bytes
split s = first s ∷ later s

-- The components that are not empty.
unfoldable pub keep_names : List Bytes → List Bytes
keep_names [] = []
keep_names (x ∷ xs) = if nonempty x then x ∷ keep_names xs else keep_names xs

abbrev pub names : Bytes → List Bytes
names s = keep_names (split s)

abbrev pub is_dots : Bytes → Bool
is_dots x = strcmp_eq x (codes ".") || strcmp_eq x (codes "..")

abbrev is_nil : List Bytes → Bool
is_nil [] = true
is_nil (x ∷ xs) = false

-- Behind the leading '/' no component is "." or "..", and only the last may be empty.
unfoldable pub clean_components : List Bytes → Bool
clean_components [] = true
clean_components (x ∷ xs) = not (is_dots x) && (is_nil xs || nonempty x) && clean_components xs

-- None of the components is "." or "..".
unfoldable pub no_dots : List Bytes → Bool
no_dots [] = true
no_dots (x ∷ xs) = not (is_dots x) && no_dots xs

pub first-append_slash : (a b : Bytes) → first (a ++ b'/' ∷ b) ≡ first a
unfolding first
first-append_slash [] b = refl
first-append_slash (c ∷ a) b = ground (arith, first-append_slash a b)

pub later-append_slash : (a b : Bytes) → later (a ++ b'/' ∷ b) ≡ later a ++ split b
unfolding later
later-append_slash [] b = refl
later-append_slash (c ∷ a) b = ground (arith, later-append_slash a b, first-append_slash a b)

pub keep_names-append :
    (xs ys : List Bytes) → keep_names (xs ++ ys) ≡ keep_names xs ++ keep_names ys
unfolding keep_names
keep_names-append [] ys = refl
keep_names-append (x ∷ xs) ys = ground (arith, keep_names-append xs ys)

-- A '/' between two strings parts their names.
pub names-append_slash : (a b : Bytes) → names (a ++ b'/' ∷ b) ≡ names a ++ names b
names-append_slash a b =
    rw (first-append_slash, later-append_slash) (keep_names-append (split a) (split b))

pub no_dots_of_clean :
    (xs : List Bytes) → clean_components xs ≡ true → no_dots (keep_names xs) ≡ true
unfolding clean_components no_dots keep_names
no_dots_of_clean [] h = refl
no_dots_of_clean (x ∷ xs) h = ground (arith, no_dots_of_clean xs)
