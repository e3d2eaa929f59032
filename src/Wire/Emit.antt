-- ===== src/Wire/Emit.antt =====
-- The messages that answer a check: emit_decision to deny_reason of capnp_api.c, and
-- build_policy_decision_reason of policy_janet.c, over a Cap'n Proto writer.
pub mod Reads
pub mod Decided
use phronesis.Base.{ℕ, Bool, Option, none, some, if◌then◌else◌}
use phronesis.Base.CString.{Bytes, CString, or_empty}
use phronesis.Policy.Types.{
  Decision, deny, Reason, PolicyResult, policy_result_set, decision_ordinal, reason_ordinal,
}
use phronesis.Pack.Compose.{Answer, host_denies, pack_says}
use phronesis.Wire.Agents.{AgentId}
use phronesis.Pack.Shell.{PackCodec}
use phronesis.Wire.Shell.{ShellCodec, Reply, decided, explained, stamped, passed}
use phronesis.Wire.Message.{
  ctext, Written, written, not_written, Writer, written_bytes, write_flat, send,
}

-- struct PolicyDecision; a null pointer to an AgentId is `none`.
pub record PolicyDecision : Type 0 where
  pub decision : ℕ
  pub reason : Bytes
  pub agent : Option AgentId
  pub code : ℕ

module _ (mem : ℕ → Bool) (writer : Writer PolicyDecision) where
  -- emit_decision, for the values of the two enumerators
  unfoldable pub emit_values : ℕ → ℕ → AgentId → CString → Written
  unfolding ctext send
  emit_values decision code agent reason =
      let m : PolicyDecision = record {
        decision = decision;
        reason = ctext (some (or_empty reason));
        agent = some agent;
        code = code;
      } in
      send mem writer m

  unfoldable pub emit_decision : PolicyResult → AgentId → CString → Written
  unfolding emit_values decision_ordinal reason_ordinal
  emit_decision pr agent reason =
      emit_values (decision_ordinal pr.decision) (reason_ordinal pr.code) agent reason

  unfoldable pub emit_code : Decision → Reason → AgentId → Written
  unfolding emit_decision
  emit_code decision code agent = emit_decision (policy_result_set decision code) agent none

  unfoldable pub deny_reason : AgentId → Reason → Bytes → Written
  unfolding emit_decision
  deny_reason agent code reason = emit_decision (policy_result_set deny code) agent (some reason)

  -- The message that a reply is sent as.
  unfoldable pub reply_message : Reply → Written
  unfolding emit_decision deny_reason emit_values
  reply_message (decided pr agent) = emit_decision pr agent none
  reply_message (explained code reason agent) = deny_reason agent code reason
  reply_message (stamped decision code agent) = emit_values decision code agent none
  reply_message (passed bytes) = written bytes

  -- The denial of the host has no agent.
  unfoldable pub build_policy_decision : Reason → Bytes → Written
  unfolding ctext write_flat reason_ordinal decision_ordinal
  build_policy_decision code reason =
      let m : PolicyDecision = record {
        decision = decision_ordinal deny;
        reason = ctext (some reason);
        agent = none;
        code = reason_ordinal code;
      } in
      if writer.set_root m then write_flat mem (writer.write_mem m) else not_written

  -- What the host builds for an answer: nothing where a pack has answered.
  unfoldable pub host_message : Answer → Option Bytes
  unfolding build_policy_decision
  host_message (pack_says b) = none
  host_message (host_denies code reason) = written_bytes (build_policy_decision code reason)

  -- The codec whose denials are those that the host builds.
  abbrev pub with_denials : ShellCodec → ShellCodec
  with_denials codec = record codec { packs = record codec.packs { write_denial = host_message } }
