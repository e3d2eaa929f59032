-- ===== src/Wire/Emit/Reads.antt =====
-- What the messages of the host read as.
use phronesis.Base.{ℕ, ◌%◌, ◌^◌, ◌≡◌, ◌≢◌, refl, Bool, none, some, arith}
use phronesis.Base.CString.{Bytes, CString, or_empty}
use phronesis.Policy.Types.{
  Decision, deny, allow, prompt, Reason, PolicyResult, decision_ordinal, reason_ordinal,
}
use phronesis.Pack.Compose.{Answer, host_denies, pack_says, FieldReader, read_decision_fields}
use phronesis.Pack.Shell.{PackCodec}
use phronesis.Wire.Agents.{AgentId}
use phronesis.Wire.Shell.{Reply, decided, explained, stamped, passed}
use phronesis.Wire.Shell.ByPacks.{IsAllow, ReadsAllow}
use phronesis.Wire.Message.{ctext, Written, written, not_written, endless}
use phronesis.Wire.Message.Held.{if_written, write_flat-held, send-held, send-ends}
use phronesis.Wire.Message.{Writer, written_bytes}
use phronesis.Wire.Emit.{
  PolicyDecision, emit_values, emit_decision, deny_reason, reply_message, build_policy_decision,
  host_message,
}

-- A reader that finds in a written decision the 16 bits of its fields.
abbrev pub ReadsFields : Writer PolicyDecision → FieldReader → Type 0
ReadsFields writer read =
    (m : PolicyDecision) (cap : ℕ) (b : Bytes)
    → writer.write_mem m cap ≡ some b
    → read_decision_fields read b ≡ some (m.decision % 2 ^ 16, m.code % 2 ^ 16)

-- The replies of the checks that the host decides itself, or that a pack has written.
abbrev pub IsDecided : Reply → Type 0
IsDecided (stamped decision code agent) = ⊥
IsDecided _ = Unit {0}

reason_small : (r : Reason) → reason_ordinal r % 2 ^ 16 ≡ reason_ordinal r
unfolding reason_ordinal
reason_small r = ground arith

decision_small : (d : Decision) → decision_ordinal d % 2 ^ 16 ≡ decision_ordinal d
unfolding decision_ordinal
decision_small d = ground arith

pub emit_decision-ends :
    (mem : ℕ → Bool) (writer : Writer PolicyDecision) (pr : PolicyResult) (agent : AgentId)
    (reason : CString)
    → emit_decision mem writer pr agent reason ≢ endless
unfolding emit_decision emit_values
emit_decision-ends mem writer pr agent reason =
    let m : PolicyDecision = record {
      decision = decision_ordinal pr.decision;
      reason = ctext (some (or_empty reason));
      agent = some agent;
      code = reason_ordinal pr.code;
    } in
    send-ends mem writer m

ordinal_allow : (d : Decision) → decision_ordinal d % 2 ^ 16 ≡ 1 → d ≡ allow
unfolding decision_ordinal
ordinal_allow deny h = absurd (omega (arith, h))
ordinal_allow allow h = refl
ordinal_allow prompt h = absurd (omega (arith, h))

module _ (mem : ℕ → Bool) (writer : Writer PolicyDecision) (read : FieldReader)
    (reads : ReadsFields writer read) where
  -- The message of a decision reads as the 16 bits of its values.
  values_read :
      (decision code : ℕ) (agent : AgentId) (reason : CString) (b : Bytes)
      → emit_values mem writer decision code agent reason ≡ written b
      → read_decision_fields read b ≡ some (decision % 2 ^ 16, code % 2 ^ 16)
  unfolding emit_values
  values_read decision code agent reason b h =
      let m : PolicyDecision = record {
        decision = decision;
        reason = ctext (some (or_empty reason));
        agent = some agent;
        code = code;
      } in
      let (cap, e) = send-held mem writer m b h in reads m cap b e

  pub emit_decision_read :
      (pr : PolicyResult) (agent : AgentId) (reason : CString) (b : Bytes)
      → emit_decision mem writer pr agent reason ≡ written b
      → read_decision_fields read b ≡ some (decision_ordinal pr.decision, reason_ordinal pr.code)
  unfolding emit_decision
  emit_decision_read pr agent reason b h = ground (
    arith,
    decision_small pr.decision,
    reason_small pr.code,
    values_read (decision_ordinal pr.decision) (reason_ordinal pr.code) agent reason b h,
  )

module _ (mem : ℕ → Bool) (writer : Writer PolicyDecision) (codec : PackCodec)
    (reads : ReadsFields writer codec.read_fields) where
  held_allow :
      (m : PolicyDecision) (cap : ℕ) (b : Bytes)
      → writer.write_mem m cap ≡ some b
      → ReadsAllow codec b
      → m.decision % 2 ^ 16 ≡ 1
  held_allow m cap b h (code, e) = ground (arith, reads m cap b h)

  values_allow :
      (decision code : ℕ) (agent : AgentId) (reason : CString) (b : Bytes)
      → emit_values mem writer decision code agent reason ≡ written b
      → ReadsAllow codec b
      → decision % 2 ^ 16 ≡ 1
  values_allow decision code agent reason b h (c, e) =
      ground (arith, values_read mem writer codec.read_fields reads decision code agent reason b h)

  built_denies :
      (code : Reason) (reason b : Bytes)
      → build_policy_decision mem writer code reason ≡ written b
      → ReadsAllow codec b
      → ⊥
  unfolding build_policy_decision decision_ordinal
  built_denies code reason b h r =
      let m : PolicyDecision = record {
        decision = 0;
        reason = ctext (some reason);
        agent = none;
        code = reason_ordinal code;
      } in
      let (cap, e) =
        write_flat-held mem (writer.write_mem m) b (if_written (writer.set_root m) _ b h) in
      absurd (omega (arith, held_allow m cap b e r))

  bytes_of : (w : Written) (b : Bytes) → written_bytes w ≡ some b → w ≡ written b
  bytes_of (written a) b h = ground arith
  bytes_of not_written b h = absurd (ground arith)
  bytes_of endless b h = absurd (ground arith)

  -- A denial that the host writes does not read as allow.
  pub host_message_denies :
      (answer : Answer) (b : Bytes)
      → host_message mem writer answer ≡ some b
      → ReadsAllow codec b
      → ⊥
  unfolding host_message
  host_message_denies (pack_says c) b h r = absurd (ground arith)
  host_message_denies (host_denies code reason) b h r =
      built_denies code reason b (bytes_of (build_policy_decision mem writer code reason) b h) r

  -- A reply is sent as a message that reads as allow only if it is one.
  pub reply_message_allows :
      (r : Reply) (b : Bytes)
      → IsDecided r
      → reply_message mem writer r ≡ written b
      → ReadsAllow codec b
      → IsAllow codec r
  unfolding reply_message emit_decision deny_reason decision_ordinal
  reply_message_allows (decided pr agent) b u h r =
      ordinal_allow pr.decision
        (values_allow (decision_ordinal pr.decision) (reason_ordinal pr.code) agent none b h r)
  reply_message_allows (explained code reason agent) b u h r =
      absurd (omega (arith, values_allow 0 (reason_ordinal code) agent (some reason) b h r))
  reply_message_allows (stamped decision code agent) b u h r = absurd u
  reply_message_allows (passed c) b u h (code, r) = (code, ground arith)
