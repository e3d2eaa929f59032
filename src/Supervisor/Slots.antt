-- ===== src/Supervisor/Slots.antt =====
-- find_mem, alloc_mem and load_agent of supervisor.c: the sixteen slots in memory.
pub mod Unique
pub mod Load
use phronesis.Base.{
  ℕ, suc, Bool, true, false, ◌&&◌, not, Option, none, some, List, [], ◌∷◌, if◌then◌else◌,
}
use phronesis.Base.Int.{negsuc}
use phronesis.Base.CString.{Bytes, strcmp_eq}
use phronesis.Policy.Types.{Rc, ok, err_state}
use phronesis.World.{World, Os}
use phronesis.Supervisor.Types.{Slot, zero_slot, Supervisor, slot_at, put_slot}
use phronesis.Supervisor.SlotFile.{read_slot_file}

abbrev next_index : Option ℕ → Option ℕ
next_index none = none
next_index (some i) = some (suc i)

-- The first slot in use with the id.
unfoldable pub find_slot : List Slot → Bytes → Option ℕ
find_slot [] id = none
find_slot (a ∷ r) id = if a.in_use && strcmp_eq a.id id then some 0 else next_index (find_slot r id)

abbrev pub find_mem : Supervisor → Bytes → Option ℕ
find_mem s id = find_slot s.agents id

-- The first slot that is not in use.
unfoldable pub free_slot : List Slot → Option ℕ
free_slot [] = none
free_slot (a ∷ r) = if not a.in_use then some 0 else next_index (free_slot r)

-- A fresh slot: memset, in_use = 1, exit_status = -1.
abbrev pub fresh_slot : Slot
fresh_slot = record zero_slot { in_use = true; exit_status = negsuc 0 }

unfoldable pub alloc_mem : Supervisor → Option (ℕ × Supervisor)
alloc_mem s = elim (free_slot s.agents) [ none ↦ none | some i ↦ some (i, put_slot s i fresh_slot) ]

-- The slot of an agent, as a position in the table, or the error.
pub data Loaded : Type 0 where
  loaded : ℕ → Loaded
  not_loaded : Rc → Loaded

-- *a = disk, in a slot that alloc_mem has found
unfoldable pub place_slot : Supervisor → Slot → Loaded × Supervisor
unfolding alloc_mem
place_slot s disk = elim (alloc_mem s) [
  | none ↦ (not_loaded err_state, s)
  | some (i, s') ↦ (loaded i, put_slot s' i disk)
]

unfoldable pub load_disk : Supervisor → Rc → Slot → Loaded × Supervisor
unfolding place_slot
load_disk s ok disk = place_slot s disk
load_disk s rc disk = (not_loaded rc, s)

unfoldable pub load_agent : Os → Supervisor → Bytes → World → Loaded × Supervisor × World
unfolding load_disk find_slot
load_agent os s id w = elim (find_mem s id) [
  | some i ↦ (loaded i, s, w)
  | none ↦
      let (r, w') = read_slot_file os s id w in let (l, s') = load_disk s r.0 r.1 in (l, s', w')
]
