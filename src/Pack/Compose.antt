-- ===== src/Pack/Compose.antt =====
-- Running the packs on a check: decision_rank, read_decision_fields, pack_pcall_fn,
-- compose_pack_entry, phronesis_shell_pack and phronesis_audio_pack of policy_janet.c.
pub mod Allowed
use phronesis.Base.{
  ℕ, zero, suc, Bool, false, ◌||◌, not, Option, none, some, List, [], ◌∷◌, ltb, ◌==◌, ◌⊎◌, inl, inr,
  if◌then◌else◌,
}
use phronesis.Base.CString.{Bytes, nonempty}
use phronesis.Policy.Types.{Reason, pack_missing, pack_runtime_error, pack_bad_result}
use phronesis.Pack.Files.{System, ask}
use phronesis.Pack.Compile.{Janet, Machine, Entries, Called, signalled, no_buffer, buffer}
use phronesis.Pack.Load.{Packs, PackSlot, load_pack_once}

-- What is answered: a denial that the host builds, with its reason text, or the bytes of a pack.
pub data Answer : Type 0 where
  host_denies : Reason → Bytes → Answer
  pack_says : Bytes → Answer

-- The ordinals of phronesis_decision_t: deny 0, allow 1, prompt 2.
unfoldable pub decision_rank : ℕ → ℕ
decision_rank zero = 3
decision_rank (suc zero) = 1
decision_rank (suc (suc zero)) = 2
decision_rank (suc (suc (suc n))) = 3

-- The results 0, -1, -2 and -3.
pub data Run : Type 0 where
  returned : Bytes → Run
  no_binding runtime_error bad_result : Run

-- The result of a call; `mem` tells whether malloc returns memory for the copy.
unfoldable pub run_of : Called → Bool → Run
run_of signalled mem = runtime_error
run_of no_buffer mem = bad_result
run_of (buffer bytes) mem =
    if not (nonempty bytes) then bad_result else if mem then returned bytes else bad_result

-- The decoded decision and code of a PolicyDecision, if the bytes hold one.
abbrev pub FieldReader : Type 0
FieldReader = Bytes → Option (ℕ × ℕ)

abbrev pub read_decision_fields : FieldReader → Bytes → Option (ℕ × ℕ)
read_decision_fields read buf = if nonempty buf then read buf else none

module _ {V H : Type 0} (sys : System) (janet : Janet V H) (read : FieldReader) where
  unfoldable pub pack_pcall_fn : V → Bytes → Machine H → Run × Machine H
  unfolding run_of
  pack_pcall_fn fnv input m =
      let (called, h) = janet.pcall fnv input m.heap in
      let m' : Machine H = record m { files = ask m.files; heap = h } in
      if not (janet.is_function fnv) || not (nonempty input)
      then (no_binding, m)
      else (run_of called (sys.memory m.files.asked), m')

  -- The best answer so far, and its rank.
  abbrev pub better : Bytes → ℕ → Option Bytes × ℕ → Option Bytes × ℕ
  better one rank (best, best_rank) =
      if ltb best_rank rank then (some one, rank) else (best, best_rank)

  abbrev pub final : Option Bytes × ℕ → Answer
  final (none, rank) = host_denies pack_missing []
  final (some best, rank) = pack_says best

  -- One answer of a pack: the answer that ends the loop, or the best one so far.
  unfoldable pub after_run : Run → Option Bytes × ℕ → Answer ⊎ (Option Bytes × ℕ)
  unfolding decision_rank
  after_run no_binding best = inl (host_denies pack_missing [])
  after_run runtime_error best = inl (host_denies pack_runtime_error [])
  after_run bad_result best = inl (host_denies pack_bad_result [])
  after_run (returned one) best = elim (read_decision_fields read one) [
    | none ↦ inl (host_denies pack_bad_result [])
    | some (dec, code) ↦
        if dec == 0 then inl (pack_says one) else inr (better one (decision_rank dec) best)
  ]

  -- The loop over the packs that have the entry.
  unfoldable pub run_entries : List V → Bytes → Option Bytes × ℕ → Machine H → Answer × Machine H
  unfolding pack_pcall_fn after_run
  run_entries [] input best m = (final best, m)
  run_entries (fnv ∷ fns) input best m =
      let (r, m') = pack_pcall_fn fnv input m in
      elim (after_run r best) [
        | inl answer ↦ (answer, m')
        | inr best' ↦ run_entries fns input best' m'
      ]

  abbrev pub entry_of : Bool → Entries V → Option V
  entry_of shell e = if shell then e.shell else e.audio

  -- The functions of the loaded packs that have the entry.
  unfoldable pub entry_fns : Bool → List (PackSlot V) → List V
  entry_fns shell [] = []
  entry_fns shell (p ∷ ps) = elim (entry_of shell p.entries) [
    | none ↦ entry_fns shell ps
    | some fn ↦ fn ∷ entry_fns shell ps
  ]

  unfoldable pub compose_pack_entry : Bool → Bytes → Packs V H → Answer × Packs V H
  unfolding load_pack_once entry_fns run_entries
  compose_pack_entry shell input st =
      let (ready, st') = load_pack_once sys janet st in
      let (answer, m) = run_entries (entry_fns shell st'.packs) input (none, 0) st'.machine in
      if not ready then (host_denies pack_missing [], st') else (answer, record st' { machine = m })

  unfoldable pub audio_pack : Bytes → Packs V H → Answer × Packs V H
  unfolding compose_pack_entry
  audio_pack input st = compose_pack_entry false input st
