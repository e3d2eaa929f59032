-- ===== src/Supervisor/SlotFile/ReadBack.antt =====
-- Reading a slot's file back after write_slot.
use phronesis.Base.{◌≡◌, ap, ◌∙◌, true, some, [], arith}
use phronesis.Base.CString.{Bytes, fits}
use phronesis.Base.CString.Laws.{strcmp_eq_refl}
use phronesis.Policy.Types.{ok, is_ok}
use phronesis.World.{World, Os, regular}
use phronesis.World.Files.{fopen_r}
use phronesis.Supervisor.Types.{Slot, Supervisor, path_max}
use phronesis.Supervisor.SlotFile.{
  slot_file, slot_line, parse_slot, check_slot, write_slot, read_slot_file,
}
use phronesis.Supervisor.SlotFile.Atomic.{write_slot-IsAtomic, fits_of_write_slot}
use phronesis.Supervisor.SlotFile.RoundTrip.{IsPersistent, parse_slot-slot_line}

-- The slot as another process, or this one after a restart, reads it.
abbrev pub restored : Slot → Slot
restored a = record a { in_use = true; cgroup_path = [] }

read_found :
    (os : Os) (s : Supervisor) (id text : Bytes) (w : World)
    → fits path_max (slot_file s id) ≡ true
    → w.node (slot_file s id) ≡ some (regular text)
    → os.io_ok w.calls ≡ true
    → (read_slot_file os s id w).0 ≡ check_slot id (parse_slot text)
unfolding read_slot_file fopen_r
read_found os s id text w f n i = ground arith

-- Once write_slot has returned ok for a slot that its file can hold, and when the file can be
-- opened, it reads back as the slot, in use, but for its control group.
pub read_slot_file-write_slot :
    (os : Os) (s : Supervisor) (a : Slot) (w : World)
    → is_ok (write_slot os s a w).0 ≡ true
    → IsPersistent a
    → os.io_ok (write_slot os s a w).1.calls ≡ true
    → (read_slot_file os s a.id (write_slot os s a w).1).0 ≡ (ok, restored a)
read_slot_file-write_slot os s a w h p i =
    read_found os s a.id (slot_line a) (write_slot os s a w).1 (fits_of_write_slot os s a w h)
      ((write_slot-IsAtomic os s a w).done h) i
    ∙ ap (check_slot a.id) (parse_slot-slot_line a p)
    ∙ same
  where
    same : check_slot a.id (some (restored a)) ≡ (ok, restored a)
    same = unfold check_slot in rw (strcmp_eq_refl a.id)
