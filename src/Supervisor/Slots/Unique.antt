-- ===== src/Supervisor/Slots/Unique.antt =====
-- The table of slots: an agent has one slot at most.
use phronesis.Base.{
  ℕ, zero, suc, ◌<◌, ◌≡◌, ◌≢◌, refl, ap, ◌∙◌, true, false, none, some, List, [], ◌∷◌, arith, ◌==◌,
  if◌then◌else◌, length, length-set, set,
}
use phronesis.Base.CString.{Bytes, strcmp_eq}
use phronesis.Base.CString.Laws.{strcmp_eq_iff}
use phronesis.Supervisor.Types.{Slot, Supervisor, slot_or, slot_at, put_slot, max_agents}
use phronesis.Supervisor.Slots.{find_slot, find_mem, free_slot, fresh_slot}

pub slot_or-set :
    (l : List Slot) (i j : ℕ) (v : Slot)
    → i < length l
    → slot_or (set l i v) j ≡ (if i == j then v else slot_or l j)
slot_or-set [] i j v h = absurd (omega arith)
slot_or-set (a ∷ l) zero zero v h = refl
slot_or-set (a ∷ l) zero (suc j) v h = ground arith
slot_or-set (a ∷ l) (suc i) zero v h = ground arith
slot_or-set (a ∷ l) (suc i) (suc j) v h = ground (arith, slot_or-set l i j v)

pub find_slot-some :
    (l : List Slot) (id : Bytes) {i : ℕ}
    → find_slot l id ≡ some i
    → (i < length l) × ((slot_or l i).in_use ≡ true) × (strcmp_eq (slot_or l i).id id ≡ true)
unfolding find_slot
find_slot-some [] id h = absurd (ground arith)
find_slot-some (a ∷ l) id {i = zero} h = ground arith
find_slot-some (a ∷ l) id {i = suc i} h = ground (arith, find_slot-some l id {i = i})

pub find_slot-none :
    (l : List Slot) (id : Bytes) (j : ℕ)
    → find_slot l id ≡ none
    → (slot_or l j).in_use ≡ true
    → strcmp_eq (slot_or l j).id id ≡ false
unfolding find_slot
find_slot-none [] id j h u = ground arith
find_slot-none (a ∷ l) id zero h u = ground arith
find_slot-none (a ∷ l) id (suc j) h u = ground (arith, find_slot-none l id j)

pub free_slot-some :
    (l : List Slot) {i : ℕ} → free_slot l ≡ some i → (i < length l) × ((slot_or l i).in_use ≡ false)
unfolding free_slot
free_slot-some [] h = absurd (ground arith)
free_slot-some (a ∷ l) {i = zero} h = ground arith
free_slot-some (a ∷ l) {i = suc i} h = ground (arith, free_slot-some l {i = i})

-- The table has its sixteen slots, and no two slots in use have one id.
pub record IsTable (s : Supervisor) : Type 0 where
  pub size : length s.agents ≡ max_agents
  pub distinct :
      (i j : ℕ)
      → (slot_at s i).in_use ≡ true
      → (slot_at s j).in_use ≡ true
      → (slot_at s i).id ≡ (slot_at s j).id
      → i ≡ j

-- A slot changes, and keeps its id and its use.
pub IsTable-put_same :
    (s : Supervisor) (i : ℕ) (v : Slot)
    → IsTable s
    → i < length s.agents
    → v.id ≡ (slot_at s i).id
    → v.in_use ≡ (slot_at s i).in_use
    → IsTable (put_slot s i v)
IsTable-put_same s i v t h e u = record {
  size = length-set s.agents i v ∙ t.size;
  distinct = λ x y p q r.
      ground (arith, slot_or-set s.agents i x v h, slot_or-set s.agents i y v h, t.distinct x y);
}

-- A slot that is not in use is taken for an id that no slot has.
pub IsTable-put_new :
    (s : Supervisor) (i : ℕ) (v : Slot)
    → IsTable s
    → i < length s.agents
    → ((j : ℕ) → (slot_at s j).in_use ≡ true → (slot_at s j).id ≢ v.id)
    → IsTable (put_slot s i v)
IsTable-put_new s i v t h new = record {
  size = length-set s.agents i v ∙ t.size;
  distinct = λ x y p q r. ground (
    arith,
    slot_or-set s.agents i x v h,
    slot_or-set s.agents i y v h,
    t.distinct x y,
    new x,
    new y,
  );
}

-- Slot i of `s'` is the agent's, and no other agent's in `s`; the other slots are those of `s`.
pub record IsSlotOf (id : Bytes) (i : ℕ) (s s' : Supervisor) : Type 0 where
  pub below : i < length s'.agents
  pub used : (slot_at s' i).in_use ≡ true
  pub named : (slot_at s' i).id ≡ id
  pub own : (slot_at s i).in_use ≡ true → (slot_at s i).id ≡ id
  pub others : (j : ℕ) → j ≢ i → slot_at s' j ≡ slot_at s j

-- An id that is not found is in no slot in use.
pub find_mem-none :
    (s : Supervisor) (id : Bytes) (j : ℕ)
    → find_mem s id ≡ none
    → (slot_at s j).in_use ≡ true
    → (slot_at s j).id ≢ id
find_mem-none s id j h u e =
    ground (arith, find_slot-none s.agents id j h u, (strcmp_eq_iff (slot_at s j).id id).1 e)

set-set : (l : List Slot) (i : ℕ) (u v : Slot) → set (set l i u) i v ≡ set l i v
set-set [] i u v = refl
set-set (a ∷ l) zero u v = refl
set-set (a ∷ l) (suc i) u v = ap (◌∷◌ a) (set-set l i u v)

-- alloc_mem and the write of the slot that follows it.
pub put_free :
    (s : Supervisor) (id : Bytes) (v : Slot) {i : ℕ}
    → IsTable s
    → find_mem s id ≡ none
    → free_slot s.agents ≡ some i
    → v.in_use ≡ true
    → v.id ≡ id
    → IsTable (put_slot (put_slot s i fresh_slot) i v)
      × IsSlotOf id i s (put_slot (put_slot s i fresh_slot) i v)
put_free s id v {i} t f e u n =
    let (below, free) = free_slot-some s.agents e in
    let once = λ (j : ℕ). slot_or-set s.agents i j v below in
    rw (set-set s.agents i fresh_slot v) (
      IsTable-put_new s i v t below (λ j p. rw n (find_mem-none s id j f p)),
      record {
        below = rw length-set below;
        used = ground (arith, once i);
        named = ground (arith, once i);
        own = λ u. absurd (ground arith);
        others = λ j d. ground (arith, once j);
      },
    )
