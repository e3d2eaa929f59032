-- ===== src/Clients/Message.antt =====
-- The loops of write_msg in crates/phronesis-sys/csrc/shell_encode.c and in
-- playground/scripts/export_shell_msg.c, beside those of the library.
use phronesis.Base.{
  ℕ, zero, suc, ◌*◌, ◌^◌, ◌≡◌, ◌≢◌, ◌≤◌, ◌<◌, refl, sym, ◌∙◌, ap, Bool, true, not, Option, none,
  some, ltb, length, arith, if◌then◌else◌, Option-cases, inl, inr,
}
use phronesis.Base.Powers.{mul-pow_suc, le-mul_pow}
use phronesis.Base.CString.{Bytes}
use phronesis.Wire.Checks.{max_body}
use phronesis.Wire.Message.{
  Written, written, not_written, endless, write_from, limited, write_msg, write_flat_from,
  write_flat, write_msg-ends,
}
use phronesis.Wire.Message.Held.{write_flat-held}

module _ (mem : ℕ → Bool) (write : ℕ → Option Bytes) where
  -- shell_encode.c
  unfoldable pub encode_from : ℕ → ℕ → Written
  encode_from zero cap = endless
  encode_from (suc fuel) cap =
      let rest = encode_from fuel (cap * 2) in
      if not (mem cap) then not_written else elim (write cap) [
        | some b ↦ written b
        | none ↦ if ltb 524288 cap then not_written else rest
      ]

  unfoldable pub write_encoded : Written
  unfolding encode_from
  write_encoded = encode_from 8 8192

  -- export_shell_msg.c, which doubles before it compares
  unfoldable pub export_from : ℕ → ℕ → Written
  export_from zero cap = endless
  export_from (suc fuel) cap =
      let rest = export_from fuel (cap * 2) in
      if not (mem cap) then not_written else elim (write cap) [
        | some b ↦ written b
        | none ↦ if ltb 1048576 (cap * 2) then not_written else rest
      ]

  unfoldable pub write_exported : Written
  unfolding export_from
  write_exported = export_from 8 8192

  encode_from_same : (k c : ℕ) → encode_from k c ≡ write_flat_from mem write k c
  unfolding encode_from write_flat_from
  encode_from_same zero c = refl
  encode_from_same (suc k) c = ground (arith, encode_from_same k (c * 2))

  export_from_same : (k c : ℕ) → export_from k c ≡ write_flat_from mem write k c
  unfolding export_from write_flat_from
  export_from_same zero c = refl
  export_from_same (suc k) c = ground (arith, export_from_same k (c * 2))

  write_from_same :
      (k c : ℕ) → 0 < c → c ≤ 1048576 → write_from mem write k c ≡ write_flat_from mem write k c
  unfolding write_from write_flat_from
  write_from_same zero c p q = refl
  write_from_same (suc k) c p q = ground (arith, write_from_same k (c * 2))

  -- The four loops that write a message give the same result for the same message and memory, except
  -- that the one of the entry points turns a message above the limit on bodies into a failure.
  pub write_loops_agree :
      (write_encoded ≡ write_flat mem write)
      × (write_exported ≡ write_flat mem write)
      × (write_msg mem write ≡ limited mem write (write_flat mem write))
  unfolding write_encoded write_exported write_flat write_msg
  write_loops_agree = (
    encode_from_same 8 8192,
    export_from_same 8 8192,
    ap (limited mem write) (write_from_same 8 8192 (omega arith) (omega arith)),
  )

  pub write_encoded-held :
      (b : Bytes) → write_encoded ≡ written b → (cap : ℕ) × (write cap ≡ some b)
  write_encoded-held b h = write_flat-held mem write b (sym (write_loops_agree.0) ∙ h)

  pub write_exported-ends : write_exported ≢ endless
  write_exported-ends e = (write_msg-ends mem write).2 (sym (write_loops_agree.1) ∙ e)

  pub write_exported-held :
      (b : Bytes) → write_exported ≡ written b → (cap : ℕ) × (write cap ≡ some b)
  write_exported-held b h = write_flat-held mem write b (sym (write_loops_agree.1) ∙ h)

  -- What fits in a buffer fits in a larger one, as the same bytes.
  abbrev pub Grows : Type 0
  Grows = (c d : ℕ) (b : Bytes) → c ≤ d → write c ≡ some b → write d ≡ some b

  module _ (grows : Grows) (b : Bytes) (fits : write 1048576 ≡ some b) where
    -- A buffer of the loop, which doubles to 1 MiB, holds nothing else.
    held : (c : ℕ) (a : Bytes) → c ≤ 1048576 → write c ≡ some a → a ≡ b
    held c a h e = ground (arith, grows c 1048576 a h e)

    flat_delivers :
        (k c : ℕ)
        → c * 2 ^ k ≡ 1048576
        → ((d : ℕ) → d ≤ 1048576 → mem d ≡ true)
        → write_flat_from mem write (suc k) c ≡ written b
    unfolding write_flat_from
    flat_delivers zero c s m =
        let e : c ≡ 1048576 = omega (arith, s) in
        ground (arith, m c (omega arith), ap write e, fits)
    flat_delivers (suc k) c s m =
        let t : c * 2 * 2 ^ k ≡ 1048576 = omega (arith, s, mul-pow_suc c k) in
        let h : c ≤ 524288 = omega (arith, le-mul_pow (c * 2) k, t) in
        let ih = flat_delivers k (c * 2) t m in
        elim (Option-cases (write c)) [
          | inl e ↦ ground (arith, m c (omega (arith, h)), ih)
          | inr (a, e) ↦ ground (arith, m c (omega (arith, h)), held c a (omega (arith, h)) e)
        ]

  -- A message that a buffer of 1 MiB holds is written by all four loops where malloc returns memory,
  -- if what fits in a buffer fits in a larger one as the same bytes; but the loop of the entry points
  -- fails on a message above the limit on bodies.
  pub write_loops-deliver :
      Grows
      → (b : Bytes) → write 1048576 ≡ some b
      → ((d : ℕ) → d ≤ 1048576 → mem d ≡ true)
      → (write_encoded ≡ written b)
        × (write_exported ≡ written b)
        × (write_flat mem write ≡ written b)
        × (write_msg mem write ≡ (if ltb max_body (length b) then not_written else written b))
  unfolding write_flat
  write_loops-deliver grows b fits m =
      let f : write_flat mem write ≡ written b =
        flat_delivers grows b fits 7 8192 (omega arith) m in
      let (e, x, w) = write_loops_agree in (e ∙ f, x ∙ f, f, w ∙ ap (limited mem write) f)
