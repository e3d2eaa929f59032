-- ===== src/Clients/Rust.antt =====
-- crates/phronesis-sys/csrc/shell_encode.c: the functions that the Rust crate calls. The library's
-- shell check is run on the message that is built for it.
pub mod Allowed
pub mod Reason
use phronesis.Base.{
  ℕ, ◌-◌, ◌%◌, ◌^◌, Bool, true, false, ◌&&◌, ◌||◌, not, Option, none, some, List, [], ◌∷◌, ◌++◌,
  ltb, ◌==◌, length, take, if◌then◌else◌,
}
use phronesis.Base.Int.{ℤ, pos, negsuc, gt_ℕ}
use phronesis.Base.CString.{Bytes, CString, nonempty, or_empty}
use phronesis.World.{World, Os}
use phronesis.Supervisor.Types.{Supervisor}
use phronesis.Pack.Files.{System}
use phronesis.Pack.Compile.{Janet}
use phronesis.Pack.Load.{Packs}
use phronesis.Wire.Agents.{AgentId}
use phronesis.Wire.Shell.{ShellCodec, Reply, Served, check_shell}
use phronesis.Wire.Message.{Written, written, not_written, endless}
use phronesis.Wire.Message.{Writer}
use phronesis.Wire.Emit.{PolicyDecision, reply_message, with_denials}
use phronesis.Clients.Message.{write_encoded}
use phronesis.Clients.Encode.{ShellMessage, shell_message}

abbrev pub rust_agent : AgentId
rust_agent = record { hi = 0; lo = 1 }

-- *out && *out_len: a message with no byte counts as a failure.
abbrev pub filled : Written → Written
filled (written []) = not_written
filled (written (c ∷ b)) = written (c ∷ b)
filled not_written = not_written
filled endless = endless

-- The result 0 with the message of the decision or -1, and what is left.
pub record Answered (V H : Type 0) : Type 0 where
  pub message : Written
  pub supervisor : Supervisor
  pub world : World
  pub packs : Packs V H

module _ {V H : Type 0} (sys : System) (janet : Janet V H) (codec : ShellCodec) (mem : ℕ → Bool)
    (decisions : Writer PolicyDecision) (shells : Writer ShellMessage) where
  unfoldable pub encoded : CString → List CString → Written
  unfolding shell_message write_encoded
  encoded cwd argv =
      let m = shell_message rust_agent cwd argv in
      if shells.set_root m then write_encoded mem (shells.write_mem m) else not_written

  -- What follows the writing of the message.
  unfoldable pub ask_check : Os → Supervisor → Written → World → Packs V H → Answered V H
  unfolding check_shell reply_message
  ask_check os s not_written w st = record {
    message = not_written;
    supervisor = s;
    world = w;
    packs = st;
  }
  ask_check os s endless w st = record { message = endless; supervisor = s; world = w; packs = st }
  ask_check os s (written body) w st =
      let served = check_shell sys janet (with_denials mem decisions codec) os s (some body) w st in
      record {
        message = filled (reply_message mem decisions served.reply);
        supervisor = served.supervisor;
        world = served.world;
        packs = served.packs;
      }

  unfoldable pub ljos_phronesis_check_shell :
      Os → Supervisor → CString → List CString → World → Packs V H → Answered V H
  unfolding encoded ask_check
  ljos_phronesis_check_shell os s cwd argv w st = ask_check os s (encoded cwd argv) w st

-- struct PolicyDecision as it is read; the text may have no string.
pub record DecisionRead : Type 0 where
  pub decision : ℕ
  pub code : ℕ
  pub reason_len : ℤ
  pub reason : CString

-- What ljos_phronesis_read_decision stores: the decision and the code with the result 0, or nothing
-- with -1, and the bytes at `reason`.
pub record ReadOut : Type 0 where
  pub fields : Option (ℕ × ℕ)
  pub reason : Bytes

-- n of the text, cut to the room
abbrev pub cut_length : ℕ → ℕ → ℕ
cut_length room n = if ltb (room - 1) n then room - 1 else n

abbrev pub text_length : ℤ → ℕ
text_length (pos n) = n
text_length (negsuc n) = 0

-- The bytes that are stored where the caller has room for so many: none without room.
unfoldable pub reason_bytes : ℕ → ℤ → CString → Bytes
reason_bytes room len none = if room == 0 then [] else 0 ∷ []
reason_bytes room len (some str) =
    if room == 0
    then []
    else if gt_ℕ len 0
    then take (cut_length room (text_length len)) str ++ 0 ∷ []
    else 0 ∷ []

-- `room` is reason_len, and 0 where reason is NULL.
unfoldable pub ljos_phronesis_read_decision : (Bytes → Option DecisionRead) → Bytes → ℕ → ReadOut
unfolding reason_bytes
ljos_phronesis_read_decision read [] room = record { fields = none; reason = [] }
ljos_phronesis_read_decision read (c ∷ body) room = elim (read (c ∷ body)) [
  | none ↦ record { fields = none; reason = if room == 0 then [] else 0 ∷ [] }
  | some d ↦ record {
    fields = some (d.decision % 2 ^ 16, d.code % 2 ^ 16);
    reason = reason_bytes room d.reason_len d.reason;
  }
]
