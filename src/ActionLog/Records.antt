-- ===== src/ActionLog/Records.antt =====
-- phronesis_action_log_append of action_log.c.
pub mod Lines
use phronesis.Base.{
  ℕ, ◌+◌, ◌≡◌, Bool, true, false, ◌&&◌, ◌||◌, not, Option, none, some, List, [], ◌∷◌, ◌++◌,
  if◌then◌else◌,
}
use phronesis.Base.CString.{Bytes, CString, codes, is_set, or_empty}
use phronesis.Base.Decimal.{print_ℕ}
use phronesis.Policy.Types.{Rc, ok, err_inval, err_io}
use phronesis.World.{World, Os, call, timed}
use phronesis.World.Files.{fopen_a, write_close}
use phronesis.ActionLog.Escape.{json_escape}

-- ek and ed hold PHRONESIS_DETAIL_MAX * 2 bytes, ea PHRONESIS_ID_MAX * 2.
abbrev pub detail_buffer : ℕ
detail_buffer = 1024

abbrev pub id_buffer : ℕ
id_buffer = 128

-- The text of one record.
unfoldable pub log_line : ℕ → Bytes → Bytes → Bytes → Bytes
log_line now ea ek ed =
    codes "{\"ts\":"
    ++ (print_ℕ now
        ++ (codes ",\"agent\":\""
            ++ (ea
                ++ (codes "\",\"kind\":\""
                    ++ (ek ++ (codes "\",\"detail\":\"" ++ (ed ++ codes "\"}\n")))))))

-- From time() on: the record is built and appended.
unfoldable pub append_record : Os → Bytes → Bytes → Bytes → Bytes → World → Rc × World
append_record os path ea ek ed w =
    let now = os.clock w.calls in
    let (opened, w') = fopen_a os path (call timed w) in
    let (written, w'') = write_close os path (log_line now ea ek ed) w' in
    if not opened then (err_io, w') else if written then (ok, w'') else (err_io, w'')

unfoldable pub append_escaped :
    Os → Bytes → Option Bytes → Option Bytes → Option Bytes → World → Rc × World
append_escaped os path (some ek) (some ed) (some ea) w = append_record os path ea ek ed w
append_escaped os path none ed ea w = (err_inval, w)
append_escaped os path (some ek) none ea w = (err_inval, w)
append_escaped os path (some ek) (some ed) none w = (err_inval, w)

unfoldable pub action_log_append : Os → CString → CString → CString → CString → World → Rc × World
unfolding append_escaped
action_log_append os none agent_id kind detail w = (err_inval, w)
action_log_append os (some path) agent_id kind detail w =
    if not (is_set kind)
    then (err_inval, w)
    else append_escaped os path (json_escape (or_empty kind) detail_buffer)
        (json_escape (or_empty detail) detail_buffer) (json_escape (or_empty agent_id) id_buffer) w
