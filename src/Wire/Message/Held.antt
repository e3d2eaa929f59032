-- ===== src/Wire/Message/Held.antt =====
-- A message that a loop has written is one that some buffer held.
use phronesis.Base.{
  ℕ, zero, suc, ◌*◌, ◌≡◌, ◌≢◌, Bool, true, false, Option, some, arith, if◌then◌else◌, Option-cases,
  inl, inr,
}
use phronesis.Base.CString.{Bytes}
use phronesis.Wire.Message.{
  Written, written, not_written, endless, write_from, limited, write_msg, write_flat_from,
  write_flat, write_msg-ends, Writer, send,
}

module _ (mem : ℕ → Bool) (write : ℕ → Option Bytes) where
  write_flat_from-held :
      (n c : ℕ) (b : Bytes)
      → write_flat_from mem write n c ≡ written b
      → (cap : ℕ) × (write cap ≡ some b)
  unfolding write_flat_from
  write_flat_from-held zero c b h = absurd (ground arith)
  write_flat_from-held (suc n) c b h = elim (Option-cases (write c)) [
    | inl e ↦ write_flat_from-held n (c * 2) b (ground arith)
    | inr (a, e) ↦ (c, ground arith)
  ]

  write_from-held :
      (n c : ℕ) (b : Bytes)
      → write_from mem write n c ≡ written b
      → (cap : ℕ) × (write cap ≡ some b)
  unfolding write_from
  write_from-held zero c b h = absurd (ground arith)
  write_from-held (suc n) c b h = elim (Option-cases (write c)) [
    | inl e ↦ write_from-held n (c * 2) b (ground arith)
    | inr (a, e) ↦ (c, ground arith)
  ]

  not_limited : (r : Written) (b : Bytes) → limited mem write r ≡ written b → r ≡ written b
  not_limited (written a) b h = ground arith
  not_limited not_written b h = h
  not_limited endless b h = h

  pub write_flat-held :
      (b : Bytes) → write_flat mem write ≡ written b → (cap : ℕ) × (write cap ≡ some b)
  unfolding write_flat
  write_flat-held b h = write_flat_from-held 8 8192 b h

  pub write_msg-held :
      (b : Bytes) → write_msg mem write ≡ written b → (cap : ℕ) × (write cap ≡ some b)
  unfolding write_msg
  write_msg-held b h = write_from-held 8 8192 b (not_limited (write_from mem write 8 8192) b h)

-- What follows the test of capn_setp.
pub if_written :
    (t : Bool) (r : Written) (b : Bytes)
    → (if t then r else not_written) ≡ written b
    → r ≡ written b
if_written true r b h = h
if_written false r b h = absurd (ground arith)

if_ends : (t : Bool) (r : Written) → r ≢ endless → (if t then r else not_written) ≢ endless
if_ends true r n e = n e
if_ends false r n e = ground arith

module _ {M : Type 0} (mem : ℕ → Bool) (writer : Writer M) (m : M) where
  -- A message that is sent is one that some buffer held, and the sending ends.
  pub send-held :
      (b : Bytes) → send mem writer m ≡ written b → (cap : ℕ) × (writer.write_mem m cap ≡ some b)
  unfolding send
  send-held b h =
      write_msg-held mem (writer.write_mem m) b
        (if_written (writer.set_root m) (write_msg mem (writer.write_mem m)) b h)

  pub send-ends : send mem writer m ≢ endless
  unfolding send
  send-ends =
      if_ends (writer.set_root m) (write_msg mem (writer.write_mem m))
        (write_msg-ends mem (writer.write_mem m)).0
