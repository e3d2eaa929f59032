-- ===== src/ActionLog/Last.antt =====
-- phronesis_action_log_last of action_log.c.
pub mod Laws
use phronesis.Base.{
  ℕ, ◌+◌, ◌≡◌, Bool, true, false, ◌&&◌, ◌||◌, not, Option, none, some, List, [], ◌∷◌, ◌++◌, ◌==◌,
  length, if◌then◌else◌,
}
use phronesis.Base.Int.{gt_ℕ, to_int}
use phronesis.Base.CString.{Bytes, CString, nonempty, snprintf_s}
use phronesis.Policy.Types.{Rc, ok, err_inval, err_io, err_notfound}
use phronesis.World.{World, Os}
use phronesis.World.Files.{fopen_r}

-- sizeof(line)
abbrev pub line_buffer : ℕ
line_buffer = 2048

-- strlen(line): the bytes before a NUL.
unfoldable pub until_nul : Bytes → Bytes
until_nul [] = []
until_nul (c ∷ s) = if c == 0 then [] else c ∷ until_nul s

-- while (n > 0 && (line[n - 1] == '\n' || line[n - 1] == '\r')) line[--n] = '\0';
unfoldable pub drop_eol : Bytes → Bytes
drop_eol [] = []
drop_eol (c ∷ s) = elim (drop_eol s) [
  | [] ↦ if c == b'\n' || c == b'\r' then [] else c ∷ []
  | d ∷ t ↦ c ∷ d ∷ t
]

-- if (n > 0) snprintf(last, sizeof(last), "%s", line); the line fits.
unfoldable pub keep_line : Bytes → Bytes → Bytes
unfolding until_nul drop_eol
keep_line last line =
    let stripped = drop_eol (until_nul line) in if nonempty stripped then stripped else last

-- The loop over fgets, a byte at a time: `line` is what fgets has stored so far, and it returns at
-- a newline, with line_buffer - 1 bytes, or at the end of the file with at least one.
unfoldable pub read_lines : Bytes → Bytes → Bytes → Bytes
unfolding keep_line
read_lines last line [] = if nonempty line then keep_line last line else last
read_lines last line (c ∷ s) =
    let line' = line ++ c ∷ [] in
    let returned = c == b'\n' || length line' + 1 == line_buffer in
    read_lines (if returned then keep_line last line' else last) (if returned then [] else line') s

-- Behind the loop: what is stored in buf, a buffer of buflen > 0 bytes. The length of the line is
-- compared with (int)buflen.
unfoldable pub store_last : Bytes → ℕ → Rc × Bytes
unfolding to_int
store_last last buflen =
    if not (nonempty last)
    then (err_notfound, [])
    else if gt_ℕ (to_int buflen) (length last)
    then (ok, snprintf_s buflen last)
    else (err_inval, snprintf_s buflen last)

-- The status, and what `buf` holds afterwards, if it is written to.
unfoldable pub action_log_last : Os → CString → ℕ → World → Rc × Bytes × World
unfolding read_lines store_last
action_log_last os none buflen w = (err_inval, [], w)
action_log_last os (some path) buflen w =
    let (found, w') = fopen_r os path w in
    if buflen == 0 then (err_inval, [], w) else elim found [
      | none ↦ (err_io, [], w')
      | some text ↦ let (rc, buf) = store_last (read_lines [] [] text) buflen in (rc, buf, w')
    ]
