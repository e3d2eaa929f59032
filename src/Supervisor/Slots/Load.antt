-- ===== src/Supervisor/Slots/Load.antt =====
-- What load_agent leaves in the table.
use mathlib.Core.Path.{subst}
use phronesis.Base.{
  ℕ, ◌≡◌, ◌≢◌, refl, sym, ap, ◌∙◌, true, Option, none, some, arith, Option-cases, inl, inr,
}
use phronesis.Base.CString.{Bytes}
use phronesis.Base.CString.Laws.{strcmp_eq_iff}
use phronesis.Policy.Types.{
  Rc, ok, err_inval, err_exists, err_notfound, err_io, err_spawn, err_state,
}
use phronesis.World.{World, Os}
use phronesis.World.Files.{fopen_r}
use phronesis.Supervisor.Types.{Slot, Supervisor, slot_at, put_slot, zero_slot, path_max}
use phronesis.Supervisor.SlotFile.{check_slot, parse_slot, read_slot_file, slot_path, ◌>>=◌}
use phronesis.Supervisor.Slots.{
  find_mem, free_slot, fresh_slot, Loaded, loaded, not_loaded, place_slot, load_disk, load_agent,
}
use phronesis.Supervisor.Slots.Unique.{IsTable, IsSlotOf, find_slot-some, free_slot-some, put_free}

-- A slot, if there is one, is in use.
record IsUsed (o : Option Slot) : Type 0 where
  at : (a : Slot) → o ≡ some a → a.in_use ≡ true

IsUsed-bind :
    {A : Type 0} (m : Option A) (f : A → Option Slot) → ((x : A) → IsUsed (f x)) → IsUsed (m >>= f)
unfolding ◌>>=◌
IsUsed-bind none f h = record { at = λ a e. cc }
IsUsed-bind (some x) f h = h x

IsUsed-some : (a : Slot) → a.in_use ≡ true → IsUsed (some a)
IsUsed-some a h = record { at = λ b e. ground arith }

IsUsed-parse_slot : (text : Bytes) → IsUsed (parse_slot text)
unfolding parse_slot
IsUsed-parse_slot text = IsUsed-bind _ _ λ a. IsUsed-bind _ _ λ b. IsUsed-bind _ _ λ c.
    IsUsed-bind _ _
      λ d. IsUsed-bind _ _ λ e. IsUsed-bind _ _ λ f. IsUsed-bind _ _ λ g. IsUsed-some _ refl

parse_slot-in_use : (text : Bytes) (a : Slot) → parse_slot text ≡ some a → a.in_use ≡ true
parse_slot-in_use text a h = (IsUsed-parse_slot text).at a h

check_slot-ok :
    (id text : Bytes) (a : Slot)
    → check_slot id (parse_slot text) ≡ (ok, a)
    → (a.in_use ≡ true) × (a.id ≡ id)
unfolding check_slot
check_slot-ok id text a h = elim (Option-cases (parse_slot text)) [
  | inl e ↦ absurd (ground arith)
  | inr (b, e) ↦ ground (arith, parse_slot-in_use text b e, (strcmp_eq_iff b.id id).0)
]

read_text-ok :
    (id : Bytes) (found : Option Bytes) (a : Slot)
    → (r : Rc × Slot)
    → r ≡ elim found [
      | none ↦ (err_notfound, zero_slot)
      | some text ↦ check_slot id (parse_slot text)
    ]
    → r ≡ (ok, a)
    → (a.in_use ≡ true) × (a.id ≡ id)
read_text-ok id none a r e h = absurd (ground arith)
read_text-ok id (some text) a r e h = check_slot-ok id text a (sym e ∙ h)

read_slot_file-ok :
    (os : Os) (s : Supervisor) (id : Bytes) (w : World) (a : Slot)
    → (read_slot_file os s id w).0 ≡ (ok, a)
    → (a.in_use ≡ true) × (a.id ≡ id)
unfolding read_slot_file
read_slot_file-ok os s id w a h = elim (Option-cases (slot_path s id path_max)) [
  | inl e ↦ absurd (ground arith)
  | inr (path, e) ↦ read_text-ok id (fopen_r os path w).0 a _ (ground arith) h
]

place_slot_free :
    (s : Supervisor) (a : Slot) {i : ℕ}
    → free_slot s.agents ≡ some i
    → place_slot s a ≡ (loaded i, put_slot (put_slot s i fresh_slot) i a)
unfolding place_slot
place_slot_free s a e = ground arith

place_slot_full :
    (s : Supervisor) (a : Slot)
    → free_slot s.agents ≡ none
    → place_slot s a ≡ (not_loaded err_state, s)
unfolding place_slot
place_slot_full s a e = ground arith

-- The table behind a load: a slot of the agent, as it was if it was in use, or the table as it was.
pub data LoadsTo (id : Bytes) (s s' : Supervisor) : Loaded → Type 0 where
  found :
      {i : ℕ}
      → IsSlotOf id i s s'
      → ((slot_at s i).in_use ≡ true → slot_at s' i ≡ slot_at s i)
      → LoadsTo id s s' (loaded i)
  unchanged : {rc : Rc} → rc ≢ ok → find_mem s id ≡ none → s' ≡ s → LoadsTo id s s' (not_loaded rc)

abbrev pub Loading : Bytes → Supervisor → Loaded × Supervisor → Type 0
Loading id s r = IsTable r.1 × LoadsTo id s r.1 r.0

place_slot-Loading :
    (s : Supervisor) (id : Bytes) (a : Slot)
    → IsTable s
    → find_mem s id ≡ none
    → a.in_use ≡ true
    → a.id ≡ id
    → Loading id s (place_slot s a)
place_slot-Loading s id a t f u n = elim (Option-cases (free_slot s.agents)) [
  | inl e ↦ rw (place_slot_full s a e) (t, unchanged (λ x. ground arith) f refl)
  | inr (j, e) ↦
      let (table, slot) = put_free s id a t f e u n in
      let (below, free) = free_slot-some s.agents e in
      rw (place_slot_free s a e) (table, found slot (λ u. absurd (ground arith)))
]

load_disk-Loading :
    (s : Supervisor) (id : Bytes) (rc : Rc) (a : Slot)
    → IsTable s
    → find_mem s id ≡ none
    → (rc ≡ ok → (a.in_use ≡ true) × (a.id ≡ id))
    → Loading id s (load_disk s rc a)
unfolding load_disk
load_disk-Loading s id ok a t f g = let (u, n) = g refl in place_slot-Loading s id a t f u n
load_disk-Loading s id err_inval a t f g = (t, unchanged (λ e. ground arith) f refl)
load_disk-Loading s id err_exists a t f g = (t, unchanged (λ e. ground arith) f refl)
load_disk-Loading s id err_notfound a t f g = (t, unchanged (λ e. ground arith) f refl)
load_disk-Loading s id err_io a t f g = (t, unchanged (λ e. ground arith) f refl)
load_disk-Loading s id err_spawn a t f g = (t, unchanged (λ e. ground arith) f refl)
load_disk-Loading s id err_state a t f g = (t, unchanged (λ e. ground arith) f refl)

abbrev pub table_of : Loaded × Supervisor × World → Loaded × Supervisor
table_of r = (r.0, r.1)

load_found :
    (os : Os) (s : Supervisor) (id : Bytes) (w : World) {i : ℕ}
    → find_mem s id ≡ some i
    → load_agent os s id w ≡ (loaded i, s, w)
unfolding load_agent
load_found os s id w e = ground arith

load_missing :
    (os : Os) (s : Supervisor) (id : Bytes) (w : World)
    → find_mem s id ≡ none
    → table_of (load_agent os s id w)
      ≡ load_disk s (read_slot_file os s id w).0.0 (read_slot_file os s id w).0.1
unfolding load_agent
load_missing os s id w e = ground arith

-- Loading an agent keeps a well-formed table well formed: either the agent has a slot in use and
-- the other slots are as they were, or an error is returned, the agent has no slot and the table
-- is as it was.
pub load_agent-Loading :
    (os : Os) (s : Supervisor) (id : Bytes) (w : World)
    → IsTable s
    → Loading id s (table_of (load_agent os s id w))
load_agent-Loading os s id w t = elim (Option-cases (find_mem s id)) [
  | inl e ↦ subst (Loading id s) (sym (load_missing os s id w e)) (
      load_disk-Loading s id _ _ t e
        (λ r. read_slot_file-ok os s id w _ (ap (λ c. (c, (read_slot_file os s id w).0.1)) r)))
  | inr (i, e) ↦
      let (below, used, named) = find_slot-some s.agents id e in
      subst (λ r. Loading id s (table_of r)) (sym (load_found os s id w e))
        (
          t,
          found
              (record {
                below = below;
                used = used;
                named = (strcmp_eq_iff (slot_at s i).id id).0 named;
                own = λ u. (strcmp_eq_iff (slot_at s i).id id).0 named;
                others = λ j d. refl;
              })
              (λ u. refl),
        )
]
