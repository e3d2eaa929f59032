-- ===== src/Wire/Admit/Running.antt =====
-- Whom phronesis_admit_seat admits.
use phronesis.Base.{ℕ, ◌≡◌, Bool, Option, some, arith, Option-cases, inl, inr}
use mathlib.Core.Path.{subst}
use phronesis.Base.CString.{Bytes}
use phronesis.Policy.Types.{allow}
use phronesis.Policy.Env.{Env}
use phronesis.World.{World, Os}
use phronesis.Supervisor.Types.{Supervisor}
use phronesis.Wire.Agents.{AgentId}
use phronesis.Wire.Checks.{SeatCheck, open_in, read_agent, check_seat}
use phronesis.Wire.Admission.{IsRunningAgent, check_seat-IsRunningAgent}
use phronesis.Wire.Message.{Written, written, not_written, endless, Writer, written_bytes, send}
use phronesis.Wire.Message.Held.{send-held}
use phronesis.Wire.Admit.{AdmitCodec, publish_by, admit_seat}

-- A reader that finds in a written message the message itself.
abbrev pub ReadsBack : {M : Type 0} → Writer M → (Bytes → Option M) → Type 0
ReadsBack {M} writer read =
    (m : M) (cap : ℕ) (b : Bytes) → writer.write_mem m cap ≡ some b → read b ≡ some m

bytes_written : (w : Written) (b : Bytes) → written_bytes w ≡ some b → w ≡ written b
bytes_written (written a) b h = ground arith
bytes_written not_written b h = absurd (ground arith)
bytes_written endless b h = absurd (ground arith)

open_in-read :
    {M : Type 0} (read : Bytes → Option M) (body : Bytes) (m : M)
    → open_in read (some body) ≡ some m
    → read body ≡ some m
open_in-read read body m h = ground arith

module _ (os : Os) (getenv : Env) (mem : ℕ → Bool) (codec : AdmitCodec)
    (reads : ReadsBack codec.write_seat codec.checks.read_seat) where
  inner-IsRunningAgent :
      (s : Supervisor) (id : AgentId) (w : World) (inner : Bytes)
      → written_bytes (send mem codec.write_seat (publish_by id)) ≡ some inner
      → (check_seat os getenv codec.checks s (some inner) w).result.decision ≡ allow
      → IsRunningAgent os s id w
  inner-IsRunningAgent s id w inner e h =
      let (cap, held) =
        send-held mem codec.write_seat (publish_by id) inner
          (bytes_written (send mem codec.write_seat (publish_by id)) inner e) in
      let (sc, o, running) = check_seat-IsRunningAgent os getenv codec.checks s (some inner) w h in
      let same : sc ≡ publish_by id = ground (
        arith,
        reads (publish_by id) cap inner held,
        open_in-read codec.checks.read_seat inner sc o,
      ) in
      subst (λ (x : SeatCheck). IsRunningAgent os s (read_agent x.agent) w) same running

  -- A seat is admitted only for an agent that the supervisor knows and that runs, and it is the agent
  -- that the message names. The codec reads the message that is made for the check as it was written.
  pub admit_seat-IsRunningAgent :
      (s : Supervisor) (body : Option Bytes) (w : World)
      → (admit_seat os getenv mem codec s body w).result.decision ≡ allow
      → (id : Option AgentId) × (open_in codec.read_admit_seat body ≡ some id)
        × IsRunningAgent os s (read_agent id) w
  unfolding admit_seat
  admit_seat-IsRunningAgent s body w h = elim (Option-cases (open_in codec.read_admit_seat body)) [
    | inl e ↦ absurd (ground arith)
    | inr (id, e) ↦
        elim (Option-cases
          (written_bytes (send mem codec.write_seat (publish_by (read_agent id))))) [
            | inl n ↦ absurd (ground arith)
            | inr (inner, n) ↦
                (id, e, inner-IsRunningAgent s (read_agent id) w inner n (ground arith))
          ]
  ]
