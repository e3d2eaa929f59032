-- ===== src/Beneath/Walk/Names.antt =====
-- The names that a walk opens.
use phronesis.Base.{
  ℕ, ◌≡◌, ◌⊎◌, refl, Bool, true, false, Option, none, some, List, [], ◌∷◌, ◌==◌, arith,
  if◌then◌else◌, Bool-cases, inl, inr,
}
use phronesis.Base.Int.{ℤ}
use phronesis.Base.CString.{Bytes, codes, nonempty, strcmp_eq}
use phronesis.Path.Components.{first, later, names, keep_names, is_dots}
use phronesis.Beneath.Walk.Opened.{IsOpened, refused, itself, walked, walk_open-IsOpened}
use phronesis.Beneath.Walk.{
  Kernel, FdCall, duplicated, opened_at, closed, walk, if_opened, walk_open, OpenMode, open_mode,
}

-- A single name: not empty, without a '/', and neither "." nor "..".
pub record IsName (x : Bytes) : Type 0 where
  pub some_bytes : nonempty x ≡ true
  pub whole : first x ≡ x
  pub no_dots : is_dots x ≡ false

-- The calls go on from `calls` by opening single names in directories and closing descriptors.
pub data IsWalk (calls : List FdCall) : List FdCall → Type 0 where
  start : IsWalk calls calls
  enter :
      {calls' : List FdCall} {name : Bytes} (fd : ℤ) (mode : OpenMode)
      → IsName name
      → IsWalk calls calls'
      → IsWalk calls (opened_at fd name mode ∷ calls')
  leave : {calls' : List FdCall} (fd : ℤ) → IsWalk calls calls' → IsWalk calls (closed fd ∷ calls')

data AllTokens : List Bytes → Type 0 where
  no_tokens : AllTokens []
  token :
      {x : Bytes} {xs : List Bytes}
      → nonempty x ≡ true
      → first x ≡ x
      → AllTokens xs
      → AllTokens (x ∷ xs)

first-first : (s : Bytes) → first (first s) ≡ first s
unfolding first
first-first [] = refl
first-first (c ∷ s) = ground (arith, first-first s)

keep_token :
    (x : Bytes) (xs : List Bytes)
    → first x ≡ x
    → AllTokens (keep_names xs)
    → AllTokens (keep_names (x ∷ xs))
unfolding keep_names
keep_token [] xs e h = h
keep_token (c ∷ x) xs e h = token refl e h

later-AllTokens : (s : Bytes) → AllTokens (keep_names (later s))
unfolding later
later-AllTokens [] = unfold keep_names in no_tokens
later-AllTokens (c ∷ s) = elim (Bool-cases (c == b'/')) [
  | inl e ↦ rw e (keep_token (first s) (later s) (first-first s) (later-AllTokens s))
  | inr e ↦ rw e (later-AllTokens s)
]

names-AllTokens : (s : Bytes) → AllTokens (names s)
names-AllTokens s = keep_token (first s) (later s) (first-first s) (later-AllTokens s)

module _ (k : Kernel) (flags : ℕ) where
  step :
      (b c : Bool) (x y z : Option ℤ × List FdCall) (calls : List FdCall)
      → IsWalk calls x.1
      → IsWalk calls y.1
      → (b ≡ false → c ≡ false → IsWalk calls z.1)
      → IsWalk calls (if b then x else if c then y else z).1
  step true c x y z calls h i j = h
  step false true x y z calls h i j = i
  step false false x y z calls h i j = j refl refl

  entered :
      (o : Option ℤ) (x : Option ℤ × List FdCall) (f : ℤ → Option ℤ × List FdCall)
      (calls : List FdCall)
      → IsWalk calls x.1
      → ((fd : ℤ) → IsWalk calls (f fd).1)
      → IsWalk calls (if_opened o x f).1
  entered none x f calls h i = h
  entered (some fd) x f calls h i = i fd

  walk-IsWalk :
      (toks : List Bytes) (cur : ℤ) (calls calls' : List FdCall)
      → AllTokens toks
      → IsWalk calls calls'
      → IsWalk calls (walk k flags cur toks calls').1
  unfolding walk
  walk-IsWalk [] cur calls calls' t h = h
  walk-IsWalk (x ∷ xs) cur calls calls' (token n w t) h =
      step (strcmp_eq x (codes ".")) (strcmp_eq x (codes "..")) _ _ _ calls
        (walk-IsWalk xs cur calls calls' t h) (leave cur h)
        (λ d e.
          let opened =
            enter cur (open_mode xs flags)
              (record { some_bytes = n; whole = w; no_dots = rw (d, e) refl }) h in
          entered _ _ _ calls (leave cur opened)
            (λ fd. walk-IsWalk xs fd calls _ t (leave cur opened)))

duplicate_walk :
    (k : Kernel) (flags : ℕ) (o : Option ℤ) (rel : Bytes) (calls : List FdCall)
    → IsWalk calls (if_opened o (none, calls) (λ fd. walk k flags fd (names rel) calls)).1
duplicate_walk k flags none rel calls = start
duplicate_walk k flags (some fd) rel calls =
    walk-IsWalk k flags (names rel) fd calls calls (names-AllTokens rel) start

opened_IsWalk :
    (k : Kernel) (rootfd : ℤ) (rel : Bytes) (flags : ℕ) (calls : List FdCall)
    (r : Option ℤ × List FdCall)
    → IsOpened k flags rel (duplicated rootfd) calls r
    → (r.1 ≡ calls) ⊎ IsWalk (duplicated rootfd ∷ calls) r.1
opened_IsWalk k rootfd rel flags calls r (refused e) = inl (rw e refl)
opened_IsWalk k rootfd rel flags calls r (itself e) = inr (rw e start)
opened_IsWalk k rootfd rel flags calls r (walked e) = inr (rw e (duplicate_walk k flags _ rel _))

-- Once walk_open has duplicated the descriptor of the root, it opens single components of a path
-- only, neither empty, nor ".", nor "..", and without a '/', and makes no other call but close.
pub walk_open-IsWalk :
    (k : Kernel) (rootfd : ℤ) (rel : Bytes) (flags : ℕ) (calls : List FdCall)
    → ((walk_open k rootfd rel flags calls).1 ≡ calls)
      ⊎ IsWalk (duplicated rootfd ∷ calls) (walk_open k rootfd rel flags calls).1
walk_open-IsWalk k rootfd rel flags calls =
    opened_IsWalk k rootfd rel flags calls _ (walk_open-IsOpened k rootfd rel flags calls)
