-- ===== src/Beneath/Walk/Opened.antt =====
-- The three ways that walk_open takes.
use phronesis.Base.{
  ℕ, ◌≡◌, refl, inl, inr, ◌||◌, not, Option, none, List, ◌∷◌, leb, length, Bool-cases,
}
use phronesis.Base.Int.{ℤ}
use phronesis.Base.CString.{Bytes, codes, nonempty, strcmp_eq}
use phronesis.Path.Components.{names}
use phronesis.Supervisor.Types.{path_max}
use phronesis.Beneath.Walk.{Kernel, FdCall, duplicated, walk, if_opened, walk_open}

-- What walk_open returns: it is refused, or the duplicate of the root is returned, or the walk is.
pub data IsOpened (k : Kernel) (flags : ℕ) (rel : Bytes) (dup : FdCall) (calls : List FdCall)
    (r : Option ℤ × List FdCall) : Type 0 where
  refused : r ≡ (none, calls) → IsOpened k flags rel dup calls r
  itself : r ≡ (k.fd_answer (dup ∷ calls), dup ∷ calls) → IsOpened k flags rel dup calls r
  walked :
      r
        ≡ if_opened
            (k.fd_answer (dup ∷ calls))
            (none, dup ∷ calls)
            (λ fd. walk k flags fd (names rel) (dup ∷ calls))
      → IsOpened k flags rel dup calls r

pub walk_open-IsOpened :
    (k : Kernel) (rootfd : ℤ) (rel : Bytes) (flags : ℕ) (calls : List FdCall)
    → IsOpened k flags rel (duplicated rootfd) calls (walk_open k rootfd rel flags calls)
unfolding walk_open
walk_open-IsOpened k rootfd rel flags calls =
    elim (Bool-cases (not (nonempty rel) || leb path_max (length rel))) [
      | inl e ↦ refused (rw e refl)
      | inr e ↦ elim (Bool-cases (strcmp_eq rel (codes "."))) [
        | inl d ↦ itself (rw (e, d) refl)
        | inr d ↦ walked (rw (e, d) refl)
      ]
    ]
