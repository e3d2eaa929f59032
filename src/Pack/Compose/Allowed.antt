-- ===== src/Pack/Compose/Allowed.antt =====
-- When the composed packs allow.
use phronesis.Base.{
  ℕ, zero, suc, ◌≡◌, ◌≢◌, ◌≤◌, ◌⊎◌, inl, inr, refl, ◌∙◌, ap, sym, Bool, true, false, Option, none,
  some, List, [], ◌∷◌, arith, ltb, ◌==◌, Bool-cases, Option-cases,
}
use mathlib.Core.Path.{subst}
use phronesis.Base.CString.{Bytes}
use phronesis.Policy.Types.{Reason}
use phronesis.Pack.Files.{System}
use phronesis.Pack.Compile.{Janet, Machine}
use phronesis.Pack.Load.{Packs, load_pack_once}
use phronesis.Pack.Compose.{
  Answer, host_denies, pack_says, decision_rank, Run, returned, no_binding, runtime_error,
  bad_result, FieldReader, read_decision_fields, pack_pcall_fn, better, final, after_run,
  run_entries, entry_fns, compose_pack_entry,
}

module _ {V H : Type 0} (sys : System) (janet : Janet V H) (read : FieldReader) where
  -- Each function in turn is called, and returns a decision that reads as allow.
  pub data AllAllow (input : Bytes) : List V → Machine H → Type 0 where
    none_left : (m : Machine H) → AllAllow input [] m
    allows :
        (fnv : V) (fns : List V) (m m' : Machine H) (one : Bytes) (code : ℕ)
        → pack_pcall_fn sys janet read fnv input m ≡ (returned one, m')
        → read_decision_fields read one ≡ some (1, code)
        → AllAllow input fns m'
        → AllAllow input (fnv ∷ fns) m

  -- The best answer so far has the rank that goes with it.
  abbrev IsBest : Option Bytes → ℕ → Type 0
  IsBest none rank = rank ≡ 0
  IsBest (some b) rank =
      (dec : ℕ) × (code : ℕ) × (read_decision_fields read b ≡ some (dec, code))
      × (rank ≡ decision_rank dec)

  rank_one : (dec : ℕ) → decision_rank dec ≤ 1 → dec ≡ 1
  unfolding decision_rank
  rank_one zero h = absurd (omega arith)
  rank_one (suc zero) h = refl
  rank_one (suc (suc zero)) h = absurd (omega arith)
  rank_one (suc (suc (suc n))) h = absurd (omega arith)

  module _ (input : Bytes) (b : Bytes) (code : ℕ)
      (ok : read_decision_fields read b ≡ some (1, code)) where
    final_allows :
        (best : Option Bytes) (rank : ℕ)
        → IsBest best rank
        → final sys janet read (best, rank) ≡ pack_says b
        → rank ≤ 1
    unfolding decision_rank
    final_allows none rank v h = omega (arith, v)
    final_allows (some b0) rank (dec, c, e, p) h =
        let same : b0 ≡ b = ground arith in
        let one : dec ≡ 1 = ground (arith, sym e ∙ ap (read_decision_fields read) same ∙ ok) in
        let k : rank ≡ decision_rank 1 = p ∙ ap decision_rank one in omega (arith, k)

    -- The step of the loop behind a call with the result r.
    module _ (one : Bytes) (best : Option Bytes) (rank : ℕ) where
      after_unread :
          read_decision_fields read one ≡ none
          → after_run sys janet read (returned one) (best, rank)
            ≡ inl (host_denies Reason.pack_bad_result [])
      unfolding after_run
      after_unread e = rw (e, after_run) refl

      after_deny :
          (c : ℕ)
          → read_decision_fields read one ≡ some (0, c)
          → after_run sys janet read (returned one) (best, rank) ≡ inl (pack_says one)
      unfolding after_run
      after_deny c e = rw (e, after_run) refl

      after_other :
          (d c : ℕ)
          → read_decision_fields read one ≡ some (suc d, c)
          → after_run sys janet read (returned one) (best, rank)
            ≡ inr (better sys janet read one (decision_rank (suc d)) (best, rank))
      unfolding after_run
      after_other d c e = let t : (suc d == 0) ≡ false = ground arith in rw (e, after_run, t) refl

      better-IsBest :
          (d c : ℕ)
          → IsBest best rank
          → read_decision_fields read one ≡ some (suc d, c)
          → let (best', rank') = better sys janet read one (decision_rank (suc d)) (best, rank) in
            IsBest best' rank' × (rank ≤ rank') × (decision_rank (suc d) ≤ rank')
      better-IsBest d c v e = elim (Bool-cases (ltb rank (decision_rank (suc d)))) [
        | inl t ↦ rw t ((suc d, c, e, refl), ground arith, omega arith)
        | inr t ↦ rw t (v, omega arith, ground arith)
      ]

    -- What the loop does behind a call with the result r.
    abbrev go_on : List V → Machine H → Answer ⊎ (Option Bytes × ℕ) → Answer × Machine H
    go_on fns m' s = elim s [
      | inl answer ↦ (answer, m')
      | inr best' ↦ run_entries sys janet read fns input best' m'
    ]

    abbrev behind : List V → Run → Option Bytes → ℕ → Machine H → Answer × Machine H
    behind fns r best rank m' = go_on fns m' (after_run sys janet read r (best, rank))

    behind_as :
        (fns : List V) (r : Run) (best : Option Bytes) (rank : ℕ) (m' : Machine H)
        (s : Answer ⊎ (Option Bytes × ℕ))
        → after_run sys janet read r (best, rank) ≡ s
        → (behind fns r best rank m').0 ≡ pack_says b
        → (go_on fns m' s).0 ≡ pack_says b
    behind_as fns r best rank m' s e h =
        subst (λ (t : Answer ⊎ (Option Bytes × ℕ)). (go_on fns m' t).0 ≡ pack_says b) e h

    -- What an answer b requires of the rest of the loop.
    abbrev Rest : List V → Machine H → Type 0
    Rest fns m' =
        (best : Option Bytes) (rank : ℕ)
        → IsBest best rank
        → (run_entries sys janet read fns input (best, rank) m').0 ≡ pack_says b
        → (rank ≤ 1) × AllAllow input fns m'

    abbrev Allowing : Run → List V → ℕ → Machine H → Type 0
    Allowing r fns rank m' =
        (rank ≤ 1)
        × ((one : Bytes) × (c : ℕ) × (r ≡ returned one)
            × (read_decision_fields read one ≡ some (1, c))
            × AllAllow input fns m')

    returned_allows :
        (fns : List V) (one : Bytes) (dec c : ℕ) (best : Option Bytes) (rank : ℕ) (m' : Machine H)
        → Rest fns m'
        → IsBest best rank
        → read_decision_fields read one ≡ some (dec, c)
        → (behind fns (returned one) best rank m').0 ≡ pack_says b
        → Allowing (returned one) fns rank m'
    returned_allows fns one zero c best rank m' ih v e h =
        let g =
          behind_as fns (returned one) best rank m' (inl (pack_says one))
            (after_deny one best rank c e) h in
        let same : one ≡ b = ground arith in
        absurd (ground (arith, sym e ∙ ap (read_decision_fields read) same ∙ ok))
    returned_allows fns one (suc d) c best rank m' ih v e h =
        let (v', low, mine) = better-IsBest one best rank d c v e in
        let next = better sys janet read one (decision_rank (suc d)) (best, rank) in
        let g =
          behind_as fns (returned one) best rank m' (inr next) (after_other one best rank d c e)
            h in
        let (most, rest) = ih next.0 next.1 v' g in
        let k : suc d ≡ 1 = rank_one (suc d) (omega (arith, mine, most)) in
        (omega (arith, low, most), (one, c, refl, e ∙ ap (λ (n : ℕ). some (n, c)) k, rest))

    behind_allows :
        (fns : List V) (r : Run) (best : Option Bytes) (rank : ℕ) (m' : Machine H)
        → Rest fns m'
        → IsBest best rank
        → (behind fns r best rank m').0 ≡ pack_says b
        → Allowing r fns rank m'
    behind_allows fns no_binding best rank m' ih v h = unfold after_run in ground arith
    behind_allows fns runtime_error best rank m' ih v h = unfold after_run in ground arith
    behind_allows fns bad_result best rank m' ih v h = unfold after_run in ground arith
    behind_allows fns (returned one) best rank m' ih v h =
        elim (Option-cases (read_decision_fields read one)) [
          | inl e ↦
              let g =
                behind_as fns (returned one) best rank m'
                  (inl (host_denies Reason.pack_bad_result [])) (after_unread one best rank e) h in
              absurd (ground arith)
          | inr ((dec, c), e) ↦ returned_allows fns one dec c best rank m' ih v e h
        ]

    run_allows : (fns : List V) (m : Machine H) → Rest fns m
    unfolding run_entries
    run_allows [] m best rank v h = (final_allows best rank v h, none_left m)
    run_allows (fnv ∷ fns) m best rank v h =
        let called = pack_pcall_fn sys janet read fnv input m in
        let (low, (one, c, e, q, rest)) =
          behind_allows fns called.0 best rank called.1 (run_allows fns called.1) v h in
        (low, allows fnv fns m called.1 one c (ap (λ (r : Run). (r, called.1)) e) q rest)

  some_fn :
      (fns : List V) (input b : Bytes) (m : Machine H)
      → (run_entries sys janet read fns input (none, 0) m).0 ≡ pack_says b
      → fns ≢ []
  unfolding run_entries
  some_fn [] input b m h = absurd (ground arith)
  some_fn (fnv ∷ fns) input b m h = ground arith

  -- An answer of the packs that reads as allow comes from loaded packs: at least one of them has the
  -- entry, and each of these was called in turn and returned allow. A missing or failed load, a call
  -- that fails, a result that is no decision, and any other decision of any pack leave no allow.
  pub compose_pack_entry-AllAllow :
      (shell : Bool) (input b : Bytes) (code : ℕ) (st : Packs V H)
      → (compose_pack_entry sys janet read shell input st).0 ≡ pack_says b
      → read_decision_fields read b ≡ some (1, code)
      → let (ready, st') = load_pack_once sys janet st in
        (ready ≡ true)
        × (entry_fns sys janet read shell st'.packs ≢ [])
        × AllAllow input (entry_fns sys janet read shell st'.packs) st'.machine
  unfolding compose_pack_entry
  compose_pack_entry-AllAllow shell input b code st h ok =
      let (ready, st') = load_pack_once sys janet st in
      let fns = entry_fns sys janet read shell st'.packs in
      elim (Bool-cases ready) [
        | inr e ↦ absurd (ground arith)
        | inl e ↦
            let g : (run_entries sys janet read fns input (none, 0) st'.machine).0 ≡ pack_says b =
              ground arith in
            (
              e,
              some_fn fns input b st'.machine g,
              (run_allows input b code ok fns st'.machine none 0 refl g).1,
            )
      ]
