-- ===== src/Supervisor/Runs/Keeps.antt =====
-- What one call on the handle of supervisor.c keeps of the table.
use mathlib.Core.Path.{subst}
use phronesis.Base.{
  ℕ, ◌≡◌, ◌≢◌, inl, inr, refl, ap, sym, ◌∙◌, true, none, some, List, [], ◌∷◌, arith, ◌==◌,
  Bool-cases,
}
use phronesis.Base.Int.{ℤ}
use phronesis.Base.CString.{Bytes, CString}
use phronesis.World.{World, Os}
use phronesis.Supervisor.Types.{Slot, Supervisor, slot_at}
use phronesis.Supervisor.Ids.{valid_id}
use phronesis.Supervisor.Slots.Unique.{IsTable}
use phronesis.Supervisor.Lifecycle.Table.{IsOwn}
use phronesis.Supervisor.Lifecycle.Acquire.{valid_agent}
use phronesis.Supervisor.Lifecycle.Start.{supervisor_start}
use phronesis.Supervisor.Lifecycle.Started.{
  started, runs_already, rejected, supervisor_start_outcome,
}
use phronesis.Supervisor.Lifecycle.Bind.{supervisor_bind}
use phronesis.Supervisor.Lifecycle.Bound.{BindOutcome, supervisor_bind_outcome}
use phronesis.Supervisor.Lifecycle.Bound
use phronesis.Supervisor.Lifecycle.Stop.{supervisor_stop}
use phronesis.Supervisor.Lifecycle.Stopped.{supervisor_stop-IsStopped}

-- The table stays well formed, and a slot in use stays its agent's.
pub record Keeps (s s' : Supervisor) : Type 0 where
  pub table : IsTable s'
  pub stays :
      (i : ℕ)
      → (slot_at s i).in_use ≡ true
      → ((slot_at s' i).in_use ≡ true) × ((slot_at s' i).id ≡ (slot_at s i).id)

pub Keeps-refl : {s : Supervisor} → IsTable s → Keeps s s
Keeps-refl t = record { table = t; stays = λ i u. (u, refl) }

pub Keeps-trans : {s t u : Supervisor} → Keeps s t → Keeps t u → Keeps s u
Keeps-trans k l = record {
  table = l.table;
  stays = λ i u. let (v, n) = k.stays i u in let (x, m) = l.stays i v in (x, m ∙ n);
}

pub Keeps-same : {s s' : Supervisor} → IsTable s → s' ≡ s → Keeps s s'
Keeps-same {s} t e = rw e (Keeps-refl t)

Stays : Supervisor → Supervisor → ℕ → Type 0
Stays s s' i =
    (slot_at s i).in_use ≡ true
    → ((slot_at s' i).in_use ≡ true) × ((slot_at s' i).id ≡ (slot_at s i).id)

pub IsOwn-Keeps : {id : Bytes} {i : ℕ} {s s' : Supervisor} → IsOwn id i s s' → Keeps s s'
unfolding Stays
IsOwn-Keeps {id} {i} {s} {s'} o = record {
  table = o.table;
  stays = λ j. elim (Bool-cases (j == i)) [
    | inl e ↦
        let same : i ≡ j = ground arith in
        subst (Stays s s') same (λ u. (o.slot.used, o.slot.named ∙ sym (o.slot.own u)))
    | inr e ↦
        let other : j ≢ i = ground arith in
        let q = o.slot.others j other in
        λ u. (ap (λ (a : Slot). a.in_use) q ∙ u, ap (λ (a : Slot). a.id) q)
  ];
}

module _ (os : Os) (s : Supervisor) (t : IsTable s) where
  pub start-Keeps :
      (id mode workspace : CString) (argv : List Bytes) (w : World)
      → Keeps s (supervisor_start os s id mode workspace argv w).1
  unfolding supervisor_start valid_agent valid_id
  start-Keeps id mode workspace [] w = Keeps-refl t
  start-Keeps none mode workspace (cmd ∷ argv) w = Keeps-refl t
  start-Keeps (some id) mode workspace (cmd ∷ argv) w =
      elim (supervisor_start_outcome os s id mode workspace cmd argv w t) [
        | started h ↦ IsOwn-Keeps h.own_slot
        | runs_already e o r ↦ IsOwn-Keeps o
        | rejected n e ↦ Keeps-same t e
      ]

  pub bind-Keeps :
      (id mode workspace : CString) (pid : ℤ) (w : World)
      → Keeps s (supervisor_bind os s id mode workspace pid w).1
  unfolding supervisor_bind valid_agent valid_id
  bind-Keeps none mode workspace pid w = Keeps-refl t
  bind-Keeps (some id) mode workspace pid w =
      elim (supervisor_bind_outcome os s id mode workspace pid w t) [
        | Bound.bound h ↦ IsOwn-Keeps h.own_slot
        | Bound.runs_already e o r f ↦ IsOwn-Keeps o
        | Bound.rejected n e ↦ Keeps-same t e
      ]

  pub stop-Keeps : (id : CString) (w : World) → Keeps s (supervisor_stop os s id w).1
  unfolding supervisor_stop valid_id
  stop-Keeps none w = Keeps-refl t
  stop-Keeps (some id) w = elim (Bool-cases (valid_id (some id))) [
    | inr e ↦ rw e (Keeps-refl t)
    | inl e ↦ elim (supervisor_stop-IsStopped os s id w t e) [
      | inl h ↦ IsOwn-Keeps h.1.own
      | inr h ↦ Keeps-same t h.1
    ]
  ]
