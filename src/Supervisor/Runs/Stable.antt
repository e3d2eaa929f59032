-- ===== src/Supervisor/Runs/Stable.antt =====
-- What every sequence of calls on the handle of supervisor.c keeps of the table.
use phronesis.Base.{ℕ, ◌≡◌, inl, inr, ap, sym, ◌∙◌, true, some, Option-cases}
use phronesis.Base.CString.{Bytes, CString}
use phronesis.Base.CString.Laws.{strcmp_eq_iff}
use phronesis.Policy.Env.{Env}
use phronesis.World.{World, Os}
use phronesis.Supervisor.Types.{Supervisor, slot_at}
use phronesis.Supervisor.Slots.{find_mem}
use phronesis.Supervisor.Slots.Unique.{IsTable, find_slot-some, find_mem-none}
use phronesis.Supervisor.Open.{supervisor_open, supervisor_open-IsTable}
use phronesis.Supervisor.Runs.{
  HandleStep, start, bind, stop, status, admits, check, Steps, here, next,
}
use phronesis.Supervisor.Runs.Keeps.{
  Keeps, Keeps-refl, Keeps-trans, start-Keeps, bind-Keeps, stop-Keeps,
}
use phronesis.Supervisor.Runs.Looks.{status-Looked, require-Looked, check-Looked}

pub HandleStep-Keeps : {s s' : Supervisor} → IsTable s → HandleStep s s' → Keeps s s'
HandleStep-Keeps {s} t (start os id mode workspace argv w) =
    start-Keeps os s t id mode workspace argv w
HandleStep-Keeps {s} t (bind os id mode workspace pid w) = bind-Keeps os s t id mode workspace pid w
HandleStep-Keeps {s} t (stop os id w) = stop-Keeps os s t id w
HandleStep-Keeps {s} t (status os id w) = (status-Looked os s t id w).keeps
HandleStep-Keeps {s} t (admits os id w) = (require-Looked os s t id w).keeps
HandleStep-Keeps {s} t (check os getenv id tool action path w) =
    (check-Looked os s t getenv id tool action path w).keeps

pub Steps-Keeps : {s s' : Supervisor} → IsTable s → Steps s s' → Keeps s s'
Steps-Keeps t here = Keeps-refl t
Steps-Keeps t (next r x) = let k = Steps-Keeps t r in Keeps-trans k (HandleStep-Keeps k.table x)

-- A slot in use stands for its id.
find_mem_used :
    (s : Supervisor) (i : ℕ) (id : Bytes)
    → IsTable s
    → (slot_at s i).in_use ≡ true
    → (slot_at s i).id ≡ id
    → find_mem s id ≡ some i
find_mem_used s i id t u n = elim (Option-cases (find_mem s id)) [
  | inl e ↦ absurd (find_mem-none s id i e u n)
  | inr (j, e) ↦
      let (below, used, named) = find_slot-some s.agents id e in
      let same : j ≡ i =
        t.distinct j i used u ((strcmp_eq_iff (slot_at s j).id id).0 named ∙ sym n) in
      e ∙ ap some same
]

-- Whatever calls follow the opening of the handle, in whatever worlds, the table has sixteen slots
-- and one slot at most for an id; and an agent that has a slot keeps that slot in all calls that
-- follow.
pub find_mem-Steps :
    (os : Os) (getenv : Env) (state_dir runtime_dir : CString) (w : World)
    {opened s s' : Supervisor}
    → (supervisor_open os getenv state_dir runtime_dir w).0.1 ≡ some opened
    → Steps opened s
    → Steps s s'
    → IsTable s × ((id : Bytes) (i : ℕ) → find_mem s id ≡ some i → find_mem s' id ≡ some i)
find_mem-Steps os getenv state_dir runtime_dir w {opened} {s} {s'} h before after =
    let k =
      Steps-Keeps (supervisor_open-IsTable os getenv state_dir runtime_dir w opened h) before in
    let l = Steps-Keeps k.table after in
    (
      k.table,
      λ id i e.
          let (below, used, named) = find_slot-some s.agents id e in
          let (u, n) = l.stays i used in
          find_mem_used s' i id l.table u (n ∙ (strcmp_eq_iff (slot_at s i).id id).0 named),
    )
