-- ===== src/Clients/Minimal.antt =====
-- examples/c/minimal.c, over mkdtemp as a parameter. The shell commands that it runs are part of the
-- outcome, in their order; what they do is not modelled.
use phronesis.Base.{
  ℕ, ◌≡◌, refl, Bool, true, false, ◌||◌, Option, none, some, List, [], ◌∷◌, ◌++◌, arith, leb,
  length, if◌then◌else◌,
}
use phronesis.Base.CString.{Bytes, codes, is_set, or_empty, nonempty, snprintf_s}
use phronesis.Base.Decimal.{print_ℕ, print_ℤ}
use phronesis.Policy.Types.{Rc, ok, err_exists}
use phronesis.Policy.Env.{Env}
use phronesis.World.{World, Os}
use phronesis.Supervisor.Types.{Supervisor, int_of_state}
use phronesis.Supervisor.Open.{supervisor_open}
use phronesis.Supervisor.Lifecycle.Start.{supervisor_start}
use phronesis.Supervisor.Lifecycle.Status.{StatusResult, status, no_status, supervisor_status}
use phronesis.Supervisor.Lifecycle.Stop.{supervisor_stop}
use phronesis.Wire.Status.{version_string, api_version}

-- The exit code, the text on stdout, the commands that are run, and the world.
pub record ExampleOutcome : Type 0 where
  pub code : ℕ
  pub out : Bytes
  pub commands : List Bytes
  pub world : World

unfoldable pub rm_tree : Bytes → List Bytes
rm_tree path =
    if nonempty path then snprintf_s 640 (codes "rm -rf -- '" ++ (path ++ codes "'")) ∷ [] else []

-- snprintf stored less than the whole into a buffer of 512 bytes.
abbrev too_long : Bytes → Bool
too_long path = leb 512 (length path)

abbrev both_made : Option Bytes → Option Bytes → Option (Bytes × Bytes)
both_made (some s) (some r) = if too_long s || too_long r then none else some (s, r)
both_made _ _ = none

abbrev pub MakeTemp : Type 0
MakeTemp = Bytes → World → Option Bytes × World

unfoldable pub make_temp_dirs : Env → MakeTemp → World → Option (Bytes × Bytes) × World
make_temp_dirs getenv mkdtemp w =
    let root = getenv (codes "PHRONESIS_EXAMPLE_ROOT") in
    let base = if is_set root then or_empty root else codes "/var/tmp" in
    let (s, w1) = mkdtemp (snprintf_s 256 (base ++ codes "/gp-ex-st-XXXXXX")) w in
    let (r, w2) = mkdtemp (snprintf_s 256 (base ++ codes "/gp-ex-rt-XXXXXX")) w1 in
    (both_made s r, w2)

abbrev pub banner : Bytes
banner =
    codes "phronesis "
    ++ (version_string ++ (codes " (api " ++ (print_ℕ api_version ++ codes ")\n")))

abbrev pub agent_line : StatusResult → Bytes
agent_line (no_status rc) = []
agent_line (status st) =
    codes "agent "
    ++ (st.id
        ++ (codes " state="
            ++ (print_ℤ (int_of_state st.state)
                ++ (codes " pid=" ++ (print_ℤ st.pid ++ codes "\n")))))

-- rc == PHRONESIS_OK || rc == PHRONESIS_ERR_EXISTS
abbrev pub is_started : Rc → Bool
is_started ok = true
is_started err_exists = true
is_started _ = false

-- The exit code, what is printed and the world that is left behind the opening.
unfoldable pub demo : Os → Supervisor → Bytes → World → (ℕ × Bytes) × World
unfolding supervisor_start supervisor_status supervisor_stop print_ℤ
demo os s state w =
    let id = some (codes "ex-agent") in
    let (rc, s1, w1) =
      supervisor_start os s id (some (codes "demo")) (some state) (codes "true" ∷ []) w in
    let (st, s2, w2) = supervisor_status os s1 id w1 in
    let (stopping, s3, w3) = supervisor_stop os s2 id w2 in
    if is_started rc
    then ((0, agent_line st ++ (codes "example ok state=" ++ (state ++ codes "\n"))), w3)
    else ((1, []), w1)

abbrev pub demo_opened : Os → Bytes → (Rc × Option Supervisor) × World → (ℕ × Bytes) × World
demo_opened os state ((ok, some s), w) = demo os s state w
demo_opened os state (_, w) = ((1, []), w)

-- What follows make_temp_dirs.
unfoldable pub with_dirs : Os → Env → Option (Bytes × Bytes) → World → ExampleOutcome
unfolding supervisor_open rm_tree print_ℕ
with_dirs os getenv none w = record { code = 1; out = banner; commands = []; world = w }
with_dirs os getenv (some (state, runtime)) w =
    let ((code, out), w') =
      demo_opened os state (supervisor_open os getenv (some state) (some runtime) w) in
    record {
      code = code;
      out = banner ++ out;
      commands = rm_tree state ++ rm_tree runtime;
      world = w';
    }

unfoldable pub minimal_main : Os → Env → MakeTemp → World → ExampleOutcome
unfolding make_temp_dirs with_dirs
minimal_main os getenv mkdtemp w =
    let (dirs, w') = make_temp_dirs getenv mkdtemp w in with_dirs os getenv dirs w'

-- The supervisor was opened, and the agent was started or ran before.
abbrev pub StartsIn : Os → Env → Bytes → Bytes → World → Type 0
StartsIn os getenv state runtime w =
    (s : Supervisor) × (w1 : World) × (supervisor_open os getenv (some state) (some runtime) w
      ≡ ((ok, some s), w1))
    × (is_started
          (supervisor_start os s (some (codes "ex-agent")) (some (codes "demo")) (some state)
            (codes "true" ∷ []) w1).0
        ≡ true)

if_started :
    (b : Bool) (x y : (ℕ × Bytes) × World) → y.0.0 ≡ 1 → (if b then x else y).0.0 ≡ 0 → b ≡ true
if_started true x y e h = refl
if_started false x y e h = absurd (omega (arith, e, h))

demo_starts :
    (os : Os) (s : Supervisor) (state : Bytes) (w : World)
    → (demo os s state w).0.0 ≡ 0
    → is_started
        (supervisor_start os s
          (some (codes "ex-agent"))
          (some (codes "demo"))
          (some state)
          (codes "true" ∷ [])
          w).0
      ≡ true
unfolding demo
demo_starts os s state w h =
    if_started
      (is_started
        (supervisor_start os s (some (codes "ex-agent")) (some (codes "demo")) (some state)
          (codes "true" ∷ []) w).0)
      _ _ refl h

opened_starts :
    (os : Os) (getenv : Env) (state runtime : Bytes) (w : World)
    (o : (Rc × Option Supervisor) × World)
    → supervisor_open os getenv (some state) (some runtime) w ≡ o
    → (demo_opened os state o).0.0 ≡ 0
    → StartsIn os getenv state runtime w
opened_starts os getenv state runtime w ((ok, some s), w1) e h =
    (s, w1, e, demo_starts os s state w1 h)
opened_starts os getenv state runtime w ((rc, s), w1) e h = absurd (omega (arith, h))

-- Once both directories are made, the example runs the commands that remove them, whatever fails; and
-- it exits with 0 only if the supervisor was opened in them and the agent was started or ran before.
pub with_dirs-starts :
    (os : Os) (getenv : Env) (state runtime : Bytes) (w : World)
    → let o = with_dirs os getenv (some (state, runtime)) w in
      (o.commands ≡ rm_tree state ++ rm_tree runtime)
      × (o.code ≡ 0 → StartsIn os getenv state runtime w)
unfolding with_dirs
with_dirs-starts os getenv state runtime w = (
  refl,
  opened_starts os getenv state runtime w (supervisor_open os getenv (some state) (some runtime) w)
      refl,
)
