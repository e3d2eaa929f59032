-- ===== src/Base/CString.antt =====
-- C strings as lists of bytes without the final NUL, and the libc functions that the program calls
-- on them. A `const char *` that may be NULL is a `CString`.
pub mod Laws
use Prim.Native.Nat.{ℕ, zero, suc, ◌≤◌}
use Prim.Native.Char.{code}
use Prim.Native.String.{String}
use mathlib.Core.Bool.{Bool, true, false, ◌&&◌, ◌||◌}
use mathlib.Core.Option.{Option, none, some}
use mathlib.Core.List.{List, [], ◌∷◌, ◌++◌}
use phronesis.Base.Tests.{◌==◌, ltb, if◌then◌else◌}
use phronesis.Base.Lists.{length, take}

abbrev pub Bytes : Type 0
Bytes = List ℕ

abbrev pub CString : Type 0
CString = Option Bytes

-- A string literal of the source.
abbrev pub codes : String → Bytes
codes String.[] = []
codes (String.◌∷◌ c s) = code c ∷ codes s

-- p && p[0]
abbrev pub is_set : CString → Bool
is_set none = false
is_set (some []) = false
is_set (some (c ∷ s)) = true

-- p[0] ? true : false, of a string that is not NULL
abbrev pub nonempty : Bytes → Bool
nonempty [] = false
nonempty (c ∷ s) = true

-- p ? p : ""
abbrev pub or_empty : CString → Bytes
or_empty none = []
or_empty (some s) = s

-- strcmp(a, b) == 0
unfoldable pub strcmp_eq : Bytes → Bytes → Bool
strcmp_eq [] [] = true
strcmp_eq [] (y ∷ ys) = false
strcmp_eq (x ∷ xs) [] = false
strcmp_eq (x ∷ xs) (y ∷ ys) = x == y && strcmp_eq xs ys

-- The rest of `s` behind the prefix `p`: strncmp(s, p, strlen(p)) == 0 and then s + strlen(p).
unfoldable pub strip_prefix : Bytes → Bytes → Option Bytes
strip_prefix [] s = some s
strip_prefix (c ∷ p) [] = none
strip_prefix (c ∷ p) (d ∷ s) = if c == d then strip_prefix p s else none

-- strncmp(s, p, strlen(p)) == 0
unfoldable pub starts_with : Bytes → Bytes → Bool
starts_with [] s = true
starts_with (c ∷ p) [] = false
starts_with (c ∷ p) (d ∷ s) = c == d && starts_with p s

-- strstr(s, needle) != NULL
unfoldable pub strstr : Bytes → Bytes → Bool
unfolding starts_with
strstr [] needle = starts_with needle []
strstr (c ∷ s) needle = starts_with needle (c ∷ s) || strstr s needle

-- strrchr(s, c): the suffix that begins at the last c.
unfoldable pub strrchr : Bytes → ℕ → Option Bytes
strrchr [] c = none
strrchr (d ∷ s) c = elim (strrchr s c) [
  | some t ↦ some t
  | none ↦ if d == c then some (d ∷ s) else none
]

-- snprintf(out, n, "%s", s) with n > 0: what is stored in out. It was cut when n <= strlen(s).
unfoldable pub snprintf_s : ℕ → Bytes → Bytes
snprintf_s zero s = []
snprintf_s (suc n) s = take n s

-- snprintf(out, n, ...) stored the whole of s.
abbrev pub fits : ℕ → Bytes → Bool
fits n s = ltb (length s) n
