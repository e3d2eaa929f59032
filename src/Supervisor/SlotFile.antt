-- ===== src/Supervisor/SlotFile.antt =====
-- write_slot and read_slot_file of supervisor.c: a slot as a line of text in a file of its own.
pub mod RoundTrip
pub mod Atomic
pub mod ReadBack
use phronesis.Base.{
  ℕ, zero, suc, ◌≤◌, Bool, true, false, ◌&&◌, ◌||◌, not, Option, none, some, List, [], ◌∷◌, ◌++◌,
  ltb, leb, ◌==◌, length, if◌then◌else◌,
}
use phronesis.Base.Int.{ℤ, pos, negsuc}
use phronesis.Base.CString.{Bytes, codes, nonempty, strcmp_eq, fits}
use phronesis.Base.Decimal.{print_ℤ, print_ℕ, scan_digits, starts_digit}
use phronesis.Policy.Types.{Rc, ok, err_inval, err_io, err_notfound}
use phronesis.World.{World, Os}
use phronesis.World.Files.{
  fopen_r, fopen_x, write_close, unlink, rename, OpenExcl, opened, file_exists, failed,
}
use phronesis.Supervisor.Types.{Slot, zero_slot, Supervisor, int_of_state, state_of_int, path_max}

-- The path of a slot's file, before it is checked against the buffer.
abbrev pub slot_file : Supervisor → Bytes → Bytes
slot_file s id = s.agents_dir ++ (b'/' ∷ (id ++ codes ".slot"))

unfoldable pub slot_path : Supervisor → Bytes → ℕ → Option Bytes
slot_path s id n = if fits n (slot_file s id) then some (slot_file s id) else none

abbrev pub or_dash : Bytes → Bytes
or_dash s = if nonempty s then s else codes "-"

-- fprintf(f, "%s %d %d %d %d %s %s\n", ...)
unfoldable pub slot_line : Slot → Bytes
slot_line a =
    a.id
    ++ (b' '
        ∷ (print_ℤ (int_of_state a.state)
            ++ (b' '
                ∷ (print_ℤ a.pid
                    ++ (b' '
                        ∷ (print_ℤ a.pgid
                            ++ (b' '
                                ∷ (print_ℤ a.exit_status
                                    ++ (b' '
                                        ∷ (or_dash a.mode
                                            ++ (b' '
                                                ∷ (or_dash a.workspace ++ b'\n' ∷ []))))))))))))

-- From the open temporary file on.
unfoldable pub commit_slot : Os → Bytes → Bytes → Bytes → World → Rc × World
commit_slot os tmp path line w =
    let (written, w') = write_close os tmp line w in
    let (moved, w'') = rename os tmp path w' in
    if not written
    then (err_io, unlink os tmp w')
    else if not moved
    then (err_io, unlink os tmp w'')
    else (ok, w'')

unfoldable pub reopen_slot : Os → Bytes → Bytes → Bytes → OpenExcl → World → Rc × World
unfolding commit_slot
reopen_slot os tmp path line opened w = commit_slot os tmp path line w
reopen_slot os tmp path line failed w = (err_io, w)
reopen_slot os tmp path line file_exists w = (err_io, w)

-- f = fopen(tmp, "wx"); if (!f && errno == EEXIST) { unlink(tmp); f = fopen(tmp, "wx"); }
unfoldable pub open_slot : Os → Bytes → Bytes → Bytes → OpenExcl → World → Rc × World
unfolding reopen_slot
open_slot os tmp path line opened w = commit_slot os tmp path line w
open_slot os tmp path line failed w = (err_io, w)
open_slot os tmp path line file_exists w =
    let (again, w') = fopen_x os tmp (unlink os tmp w) in reopen_slot os tmp path line again w'

abbrev pub slot_tmp : Os → Bytes → Bytes
slot_tmp os path = path ++ (codes ".tmp." ++ print_ℕ os.own_pid)

unfoldable pub write_slot_at : Os → Bytes → Bytes → World → Rc × World
unfolding open_slot
write_slot_at os path line w =
    let tmp = slot_tmp os path in
    let (f, w') = fopen_x os tmp w in
    if not (fits path_max tmp) then (err_inval, w) else open_slot os tmp path line f w'

unfoldable pub write_slot : Os → Supervisor → Slot → World → Rc × World
unfolding slot_path write_slot_at
write_slot os s a w = elim (slot_path s a.id path_max) [
  | none ↦ (err_inval, w)
  | some path ↦ write_slot_at os path (slot_line a) w
]

-- isspace
abbrev pub is_space : ℕ → Bool
is_space c = c == b' ' || leb 9 c && leb c 13

unfoldable pub skip_spaces : Bytes → Bytes
skip_spaces [] = []
skip_spaces (c ∷ s) = if is_space c then skip_spaces s else c ∷ s

-- The bytes up to a space, n at most, and what follows them.
unfoldable pub word : ℕ → Bytes → Bytes × Bytes
word zero s = ([], s)
word (suc n) [] = ([], [])
word (suc n) (c ∷ s) = let (w, rest) = word n s in if is_space c then ([], c ∷ s) else (c ∷ w, rest)

-- "%<n>s"
unfoldable pub scan_word : ℕ → Bytes → Option (Bytes × Bytes)
unfolding skip_spaces word
scan_word n s =
    let (w, rest) = word n (skip_spaces s) in if nonempty w then some (w, rest) else none

unfoldable pub scan_unsigned : (ℕ → ℤ) → Bytes → Option (ℤ × Bytes)
scan_unsigned sign s =
    let (n, rest) = scan_digits 0 s in if starts_digit s then some (sign n, rest) else none

abbrev pub minus : ℕ → ℤ
minus zero = pos 0
minus (suc n) = negsuc n

unfoldable pub scan_signed : Bytes → Option (ℤ × Bytes)
unfolding scan_unsigned
scan_signed [] = none
scan_signed (c ∷ s) =
    if c == b'-'
    then scan_unsigned minus s
    else if c == b'+'
    then scan_unsigned pos s
    else scan_unsigned pos (c ∷ s)

-- "%d"; a value outside of int is undefined behaviour in C and is kept here.
unfoldable pub scan_int : Bytes → Option (ℤ × Bytes)
unfolding skip_spaces scan_signed
scan_int s = scan_signed (skip_spaces s)

infixl 5 ◌>>=◌
unfoldable pub ◌>>=◌ : {A B : Type 0} → Option A → (A → Option B) → Option B
none >>= f = none
some a >>= f = f a

abbrev pub un_dash : Bytes → Bytes
un_dash s = if strcmp_eq s (codes "-") then [] else s

-- fscanf(f, "%63s %d %d %d %d %31s %511s", ...) == 7, and the slot that is filled from it.
unfoldable pub parse_slot : Bytes → Option Slot
unfolding scan_word scan_int
parse_slot s0 = do
  (id, s1) ← scan_word 63 s0
  (state, s2) ← scan_int s1
  (pid, s3) ← scan_int s2
  (pgid, s4) ← scan_int s3
  (exit_status, s5) ← scan_int s4
  (mode, s6) ← scan_word 31 s5
  (workspace, s7) ← scan_word 511 s6
  some (record {
    in_use = true;
    id = id;
    state = state_of_int state;
    pid = pid;
    pgid = pgid;
    exit_status = exit_status;
    mode = un_dash mode;
    workspace = un_dash workspace;
    cgroup_path = [];
  })

-- if (strcmp(got_id, id) != 0) return PHRONESIS_ERR_IO;
unfoldable pub check_slot : Bytes → Option Slot → Rc × Slot
check_slot id none = (err_io, zero_slot)
check_slot id (some a) = if strcmp_eq a.id id then (ok, a) else (err_io, zero_slot)

unfoldable pub read_slot_file : Os → Supervisor → Bytes → World → (Rc × Slot) × World
unfolding slot_path parse_slot check_slot
read_slot_file os s id w = elim (slot_path s id path_max) [
  | none ↦ ((err_inval, zero_slot), w)
  | some path ↦
      let (found, w') = fopen_r os path w in
      elim found [
        | none ↦ ((err_notfound, zero_slot), w')
        | some text ↦ (check_slot id (parse_slot text), w')
      ]
]
