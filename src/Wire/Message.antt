-- ===== src/Wire/Message.antt =====
-- Writing a message: ctext and write_msg of capnp_api.c, write_flat of policy_janet.c. capn_write_mem
-- is a parameter: `write k` is the message in a buffer of k bytes, if it fits.
pub mod Held
use phronesis.Base.{
  ℕ, zero, suc, ◌*◌, ◌^◌, ◌≡◌, ◌≢◌, ◌≤◌, ◌<◌, refl, Bool, ◌||◌, not, Option, none, some, ltb, ◌==◌,
  length, take, arith, if◌then◌else◌, Option-cases, inl, inr,
}
use phronesis.Base.Powers.{mul-pow_suc}
use phronesis.Base.CString.{Bytes, CString, or_empty}
use phronesis.Wire.Checks.{max_body}

-- The bytes of a text: INT_MAX at most.
unfoldable pub ctext : CString → Bytes
ctext s = if ltb 2147483647 (length (or_empty s)) then take 2147483647 (or_empty s) else or_empty s

-- The result 0 with the message, -1, or a loop that does not end.
pub data Written : Type 0 where
  written : Bytes → Written
  not_written endless : Written

-- What the library writes messages M with: does capn_setp succeed on one, and what does
-- capn_write_mem write of it into a buffer of so many bytes?
pub record Writer (M : Type 0) : Type 0 where
  pub set_root : M → Bool
  pub write_mem : M → ℕ → Option Bytes

abbrev pub written_bytes : Written → Option Bytes
written_bytes (written b) = some b
written_bytes not_written = none
written_bytes endless = none

module _ (mem : ℕ → Bool) (write : ℕ → Option Bytes) where
  -- The loop of write_msg for so many rounds; cap_max is 1 MiB.
  unfoldable pub write_from : ℕ → ℕ → Written
  write_from zero cap = endless
  write_from (suc fuel) cap =
      let rest = write_from fuel (cap * 2) in
      if cap == 0 || ltb 1048576 cap
      then not_written
      else if not (mem cap)
      then not_written
      else elim (write cap) [
        | some b ↦ written b
        | none ↦ if ltb 524288 cap then not_written else rest
      ]

  -- What follows the loop.
  abbrev pub limited : Written → Written
  limited (written b) = if ltb max_body (length b) then not_written else written b
  limited not_written = not_written
  limited endless = endless

  -- Eight rounds are enough: 8192 bytes double to 1 MiB in seven.
  unfoldable pub write_msg : Written
  unfolding write_from
  write_msg = limited (write_from 8 8192)

  unfoldable pub write_flat_from : ℕ → ℕ → Written
  write_flat_from zero cap = endless
  write_flat_from (suc fuel) cap =
      let rest = write_flat_from fuel (cap * 2) in
      if not (mem cap) then not_written else elim (write cap) [
        | some b ↦ written b
        | none ↦ if ltb 524288 cap then not_written else rest
      ]

  unfoldable pub write_flat : Written
  unfolding write_flat_from
  write_flat = write_flat_from 8 8192

  write_from-ends : (k c : ℕ) → 524288 < c * 2 ^ k → write_from (suc k) c ≢ endless
  unfolding write_from
  write_from-ends zero c h = ground arith
  write_from-ends (suc k) c h =
      let ih = write_from-ends k (c * 2) (omega (arith, h, mul-pow_suc c k)) in
      elim (Option-cases (write c)) [
        | inl e ↦ rw e (ground (arith, ih))
        | inr (b, e) ↦ rw e (ground arith)
      ]

  write_flat_from-ends : (k c : ℕ) → 524288 < c * 2 ^ k → write_flat_from (suc k) c ≢ endless
  unfolding write_flat_from
  write_flat_from-ends zero c h = ground arith
  write_flat_from-ends (suc k) c h =
      let ih = write_flat_from-ends k (c * 2) (omega (arith, h, mul-pow_suc c k)) in
      elim (Option-cases (write c)) [
        | inl e ↦ rw e (ground (arith, ih))
        | inr (b, e) ↦ rw e (ground arith)
      ]

  msg_ends : (r : Written) → r ≢ endless → limited r ≢ endless
  msg_ends (written b) h = ground arith
  msg_ends not_written h = ground arith
  msg_ends endless h = absurd (h refl)

  msg_short : (b : Bytes) (r : Written) → limited r ≡ written b → length b ≤ max_body
  msg_short b (written c) h = ground arith
  msg_short b not_written h = absurd (ground arith)
  msg_short b endless h = absurd (ground arith)

  -- Both loops end, and a message that is written is no longer than the limit on bodies.
  pub write_msg-ends :
      (write_msg ≢ endless)
      × ((b : Bytes) → write_msg ≡ written b → length b ≤ max_body)
      × (write_flat ≢ endless)
  unfolding write_msg write_flat
  write_msg-ends = (
    msg_ends (write_from 8 8192) (write_from-ends 7 8192 (omega arith)),
    λ b. msg_short b (write_from 8 8192),
    write_flat_from-ends 7 8192 (omega arith),
  )

-- What follows the building of a message.
unfoldable pub send : {M : Type 0} → (ℕ → Bool) → Writer M → M → Written
unfolding write_msg
send mem writer m = if writer.set_root m then write_msg mem (writer.write_mem m) else not_written
