-- ===== src/World/Files.antt =====
-- The stdio and unistd calls on files.
use phronesis.Base.{Bool, true, false, Option, none, some, [], ◌++◌, take, ◌&&◌, not, if◌then◌else◌}
use phronesis.Base.CString.{Bytes}
use phronesis.World.{
  Node, directory, regular, open_read, open_write, open_append, open_excl, printed, closed,
  unlinked, renamed, World, Os, call, put_node,
}

-- The bytes of a regular file; a missing file has none.
abbrev pub content : Option Node → Bytes
content none = []
content (some directory) = []
content (some (regular b)) = b

abbrev pub exists : Option Node → Bool
exists none = false
exists (some n) = true

abbrev pub is_regular : Option Node → Bool
is_regular (some (regular b)) = true
is_regular _ = false

-- fopen(path, "r"), with the bytes that it then reads
unfoldable pub fopen_r : Os → Bytes → World → Option Bytes × World
fopen_r os path w = (
  (if is_regular (w.node path) && os.io_ok w.calls then some (content (w.node path)) else none),
  call (open_read path) w,
)

-- fprintf and fclose of a text to an open file: `true` if both succeed. When the write fails, some
-- prefix of the text has reached the file.
unfoldable pub write_close : Os → Bytes → Bytes → World → Bool × World
write_close os path text w =
    let old = content (w.node path) in
    let w' = call (printed path) w in
    let w'' = call (closed path) w' in
    if os.io_ok w.calls
    then (if os.io_ok w'.calls
        then (true, put_node path (some (regular (old ++ text))) w'')
        else (false, put_node path (some (regular (old ++ take (os.written w'.calls) text))) w''))
    else (false, put_node path (some (regular (old ++ take (os.written w.calls) text))) w'')

abbrev pub is_directory : Option Node → Bool
is_directory (some directory) = true
is_directory _ = false

-- fopen(path, "a"): a file that is missing is made.
unfoldable pub fopen_a : Os → Bytes → World → Bool × World
fopen_a os path w =
    if os.io_ok w.calls && not (is_directory (w.node path))
    then (true, put_node path (some (regular (content (w.node path)))) (call (open_append path) w))
    else (false, call (open_append path) w)

-- fopen(path, "wx"): it makes a new file, fails with EEXIST if the path is there, or fails with
-- another errno.
pub data OpenExcl : Type 0 where
  opened file_exists failed : OpenExcl

unfoldable pub fopen_x : Os → Bytes → World → OpenExcl × World
fopen_x os path w =
    if not (os.io_ok w.calls)
    then (failed, call (open_excl path) w)
    else if exists (w.node path)
    then (file_exists, call (open_excl path) w)
    else (opened, put_node path (some (regular [])) (call (open_excl path) w))

-- fopen(path, "w"): the file is made or emptied.
unfoldable pub fopen_w : Os → Bytes → World → Bool × World
fopen_w os path w =
    if os.io_ok w.calls && not (is_directory (w.node path))
    then (true, put_node path (some (regular [])) (call (open_write path) w))
    else (false, call (open_write path) w)

-- unlink, whose result the program does not read
unfoldable pub unlink : Os → Bytes → World → World
unlink os path w =
    if os.io_ok w.calls then put_node path none (call (unlinked path) w) else call (unlinked path) w

unfoldable pub rename : Os → Bytes → Bytes → World → Bool × World
rename os from to w =
    if os.io_ok w.calls
    then (true, put_node from none (put_node to (w.node from) (call (renamed from to) w)))
    else (false, call (renamed from to) w)
