-- ===== src/Clients/Playground/Reloads.antt =====
-- What the page learns of a reload by path.
use phronesis.Base.{◌≡◌, refl, Bool, some, ◌∷◌, List, ℕ}
use phronesis.Base.CString.{Bytes}
use phronesis.World.{Os}
use phronesis.Pack.Files.{System}
use phronesis.Pack.Compile.{Janet}
use phronesis.Pack.Load.{LoadResult, rc_of_loading, shell_pack_reload, shell_pack_reload_internal}
use phronesis.Pack.Load.Kept.{After, shell_pack_reload-After}
use phronesis.Trace.Ring.Calls.{Call}
use phronesis.Wire.Shell.{ShellCodec}
use phronesis.Wire.Emit.{PolicyDecision}
use phronesis.Wire.Message.{Writer}
use phronesis.Clients.Playground.{Held, Page, reloaded_of, pd_reload_pack_path}

module _ {V H : Type 0} (os : Os) (sys : System) (janet : Janet V H) (shells : ShellCodec)
    (mem : ℕ → Bool) (decisions : Writer PolicyDecision)
    (events : Bytes → Held V H → List Call) where
  -- The result for a path that is not empty is that of the load: 0, -1 or -2 as it succeeds, is rejected
  -- or fails, with the packs that each of these leaves.
  pub pd_reload_pack_path-After :
      (c : ℕ) (path : Bytes) (page : Page V H)
      → let (r, page') =
          pd_reload_pack_path os sys janet shells mem decisions events (some (c ∷ path)) page in
        (loaded : LoadResult) × (r ≡ reloaded_of (rc_of_loading sys janet loaded))
        × After sys janet page.held.packs loaded page'.held.packs
  unfolding pd_reload_pack_path shell_pack_reload
  pd_reload_pack_path-After c path page =
      let (loaded, st) = shell_pack_reload_internal sys janet (some (c ∷ path)) page.held.packs in
      (loaded, refl, shell_pack_reload-After sys janet (some (c ∷ path)) page.held.packs)
