-- ===== src/Beneath/Walk/Descriptors.antt =====
-- The descriptors that a walk opens and closes.
use phronesis.Base.{
  ℕ, suc, ◌+◌, ◌≡◌, refl, Bool, true, false, Option, none, some, List, [], ◌∷◌, arith,
  if◌then◌else◌,
}
use phronesis.Base.Int.{ℤ}
use phronesis.Base.CString.{Bytes, codes, strcmp_eq}
use phronesis.Path.Components.{names}
use phronesis.Beneath.Walk.Opened.{IsOpened, refused, itself, walked, walk_open-IsOpened}
use phronesis.Beneath.Walk.{
  Kernel, FdCall, duplicated, opened_at, opened_beneath, closed, walk, if_opened, walk_open,
  open_mode, OpenMode,
}

abbrev pub is_some : Option ℤ → ℕ
is_some none = 0
is_some (some fd) = 1

-- How many descriptors the calls have returned; openat2 apart, each call but close may return one.
unfoldable pub returned : Kernel → List FdCall → ℕ
returned k [] = 0
returned k (closed fd ∷ calls) = returned k calls
returned k (opened_beneath fd rel flags ∷ calls) = returned k calls
returned k (c ∷ calls) = is_some (k.fd_answer (c ∷ calls)) + returned k calls

-- How many descriptors the calls have closed.
unfoldable pub closes : List FdCall → ℕ
closes [] = 0
closes (closed fd ∷ calls) = suc (closes calls)
closes (_ ∷ calls) = closes calls

module _ (k : Kernel) (flags : ℕ) where
  entered_balance :
      (cur : ℤ) (tok : Bytes) (mode : OpenMode) (later : List Bytes) (calls : List FdCall)
      (o : Option ℤ)
      → ((cur : ℤ) (calls : List FdCall)
          → returned k (walk k flags cur later calls).1 + closes calls + 1
            ≡ returned k calls
              + closes (walk k flags cur later calls).1
              + is_some (walk k flags cur later calls).0)
      → o ≡ k.fd_answer (opened_at cur tok mode ∷ calls)
      → (r : Option ℤ × List FdCall)
      → r
        ≡ if_opened o
            (none, closed cur ∷ opened_at cur tok mode ∷ calls)
            (λ reached. walk k flags reached later (closed cur ∷ opened_at cur tok mode ∷ calls))
      → returned k r.1 + closes calls + 1 ≡ returned k calls + closes r.1 + is_some r.0
  unfolding returned closes
  entered_balance cur tok mode later calls none ih e r h = rw h (rw (← e) (omega arith))
  entered_balance cur tok mode later calls (some fd) ih e r h =
      rw h (omega (arith, ih fd (closed cur ∷ opened_at cur tok mode ∷ calls), one))
    where
      one : is_some (k.fd_answer (opened_at cur tok mode ∷ calls)) ≡ 1
      one = rw (← e) refl

  step_balance :
      (b c : Bool) (x y z : Option ℤ × List FdCall) (calls : List FdCall)
      → returned k x.1 + closes calls + 1 ≡ returned k calls + closes x.1 + is_some x.0
      → returned k y.1 + closes calls + 1 ≡ returned k calls + closes y.1 + is_some y.0
      → returned k z.1 + closes calls + 1 ≡ returned k calls + closes z.1 + is_some z.0
      → (r : Option ℤ × List FdCall) → r ≡ (if b then x else if c then y else z)
      → returned k r.1 + closes calls + 1 ≡ returned k calls + closes r.1 + is_some r.0
  step_balance true c x y z calls h i j r e = rw e h
  step_balance false true x y z calls h i j r e = rw e i
  step_balance false false x y z calls h i j r e = rw e j

  -- A walk that holds the descriptor `cur` closes it and every descriptor that it opens on the way, but
  -- for the one that it returns.
  walk_balance :
      (toks : List Bytes) (cur : ℤ) (calls : List FdCall)
      → returned k (walk k flags cur toks calls).1 + closes calls + 1
        ≡ returned k calls
          + closes (walk k flags cur toks calls).1
          + is_some (walk k flags cur toks calls).0
  walk_balance [] cur calls = unfold walk in refl
  walk_balance (x ∷ xs) cur calls =
      step_balance (strcmp_eq x (codes ".")) (strcmp_eq x (codes "..")) _ (none, closed cur ∷ calls)
        _ calls (walk_balance xs cur calls) (unfold returned closes in omega arith)
        (entered_balance cur x (open_mode xs flags) xs calls _ (walk_balance xs) refl _ refl) _
        (unfold walk in refl)

duplicate_balance :
    (k : Kernel) (flags : ℕ) (o : Option ℤ) (rel : Bytes) (rootfd : ℤ) (calls : List FdCall)
    → o ≡ k.fd_answer (duplicated rootfd ∷ calls)
    → (r : Option ℤ × List FdCall)
    → r
      ≡ if_opened o
          (none, duplicated rootfd ∷ calls)
          (λ fd. walk k flags fd (names rel) (duplicated rootfd ∷ calls))
    → returned k r.1 + closes calls ≡ returned k calls + closes r.1 + is_some r.0
unfolding returned closes
duplicate_balance k flags none rel rootfd calls e r h = rw h (rw (← e) (omega arith))
duplicate_balance k flags (some fd) rel rootfd calls e r h =
    rw h (omega (arith, walk_balance k flags (names rel) fd (duplicated rootfd ∷ calls), one))
  where
    one : is_some (k.fd_answer (duplicated rootfd ∷ calls)) ≡ 1
    one = rw (← e) refl

opened_balance :
    (k : Kernel) (rootfd : ℤ) (rel : Bytes) (flags : ℕ) (calls : List FdCall)
    (r : Option ℤ × List FdCall)
    → IsOpened k flags rel (duplicated rootfd) calls r
    → returned k r.1 + closes calls ≡ returned k calls + closes r.1 + is_some r.0
unfolding returned closes
opened_balance k rootfd rel flags calls r (refused e) = rw e (omega arith)
opened_balance k rootfd rel flags calls r (itself e) = rw e (omega arith)
opened_balance k rootfd rel flags calls r (walked e) =
    duplicate_balance k flags _ rel rootfd calls refl r e

-- However the kernel answers, walk_open closes as many descriptors as it gets, but for the one
-- that it returns.
pub walk_open_balance :
    (k : Kernel) (rootfd : ℤ) (rel : Bytes) (flags : ℕ) (calls : List FdCall)
    → returned k (walk_open k rootfd rel flags calls).1 + closes calls
      ≡ returned k calls
        + closes (walk_open k rootfd rel flags calls).1
        + is_some (walk_open k rootfd rel flags calls).0
walk_open_balance k rootfd rel flags calls =
    opened_balance k rootfd rel flags calls _ (walk_open-IsOpened k rootfd rel flags calls)
