-- ===== src/Pack/Load.antt =====
-- LoadResult packs: phronesis_policy_pack_reset, unload_packs, load_one_pack to
-- phronesis_shell_pack_reload of policy_janet.c.
pub mod Kept
use phronesis.Base.{
  ℕ, zero, suc, ◌+◌, Bool, true, false, ◌&&◌, ◌||◌, not, Option, none, some, List, [], ◌∷◌, ◌++◌,
  leb, ltb, ◌==◌, length, if◌then◌else◌,
}
use phronesis.Base.CString.{Bytes, CString, codes, nonempty, or_empty, strcmp_eq}
use phronesis.Policy.Env.{Env}
use phronesis.Policy.Types.{Rc, ok, err_inval, err_io}
use phronesis.Pack.Paths.{pack_path_max, pack_max, pack_spec_max}
use phronesis.Pack.Files.{System, Files, ask}
use phronesis.Pack.Spec.{parse_pack_spec, pack_reload_spec_allowed, default_pack_spec}
use phronesis.Pack.Compile.{Janet, Machine, Entries, is_given, has_entry, compile_pack}
use phronesis.Pack.Image.{load_pack_image}

-- pack_slot_t; the env is never set.
pub record PackSlot (V : Type 0) : Type 0 where
  pub entries : Entries V
  pub path : Bytes

-- The static variables, the heap and the environment: `packs` holds the first npacks slots.
pub record Packs (V H : Type 0) : Type 0 where
  pub machine : Machine H
  pub getenv : Env
  pub inited : Bool
  pub loaded : Bool
  pub failed : Bool
  pub packs : List (PackSlot V)
  pub spec_buf : Bytes
  pub spec_set : Bool

-- The results 0, -1 and -2.
pub data LoadResult : Type 0 where
  loaded_all invalid not_loaded : LoadResult

-- PHRONESIS_JANET_PACK=value
abbrev pub set_pack_env : Bytes → Env → Env
set_pack_env value getenv name =
    if strcmp_eq name (codes "PHRONESIS_JANET_PACK") then some value else getenv name

module _ {V H : Type 0} (sys : System) (janet : Janet V H) where
  -- gcunroot of the entries that a slot has
  unfoldable pub unroot : Option V → H → H
  unroot none h = h
  unroot (some v) h = janet.gcunroot v h

  unfoldable pub root_entry : Option V → H → H
  root_entry none h = h
  root_entry (some v) h = janet.gcroot v h

  unfoldable pub unroot_slots : List (PackSlot V) → H → H
  unfolding unroot
  unroot_slots [] h = h
  unroot_slots (p ∷ ps) h = unroot_slots ps (unroot p.entries.audio (unroot p.entries.shell h))

  abbrev with_heap : H → Packs V H → Packs V H
  with_heap h st = record st { machine = record st.machine { heap = h } }

  unfoldable pub unload_packs : Packs V H → Packs V H
  unfolding unroot_slots
  unload_packs st = record (with_heap (unroot_slots st.packs st.machine.heap) st) {
    loaded = false;
    failed = false;
    packs = [];
  }

  unfoldable pub pack_reset : Packs V H → Packs V H
  unfolding unload_packs
  pack_reset st = record (unload_packs st) { failed = false; spec_set = false; spec_buf = [] }

  abbrev pub initialised : Packs V H → Packs V H
  initialised st =
      if st.inited then st else record (with_heap (janet.init st.machine.heap) st) { inited = true }

  -- From the image beside the pack, else by compiling the pack.
  unfoldable pub pack_entries : Env → Bytes → Machine H → Option (Entries V) × Machine H
  unfolding load_pack_image compile_pack
  pack_entries getenv path m =
      let (image, m1) = load_pack_image sys janet getenv path m in
      let compiled = compile_pack sys janet getenv path m1 in
      if is_given image then (image, m1) else compiled

  -- A new slot; a path that is too long gives the entries up again.
  unfoldable pub register_pack : Entries V → Bytes → Packs V H → Bool × Packs V H
  unfolding root_entry unroot
  register_pack e path st =
      let h = root_entry e.audio (root_entry e.shell st.machine.heap) in
      if leb pack_path_max (length path)
      then (false, with_heap (unroot e.audio (unroot e.shell h)) st)
      else (
        true,
        record (with_heap h st) { packs = st.packs ++ record { entries = e; path = path } ∷ [] },
      )

  -- A file with no entry is no pack.
  unfoldable pub register_found : Option (Entries V) → Bytes → Packs V H → Bool × Packs V H
  unfolding register_pack
  register_found none path st = (false, st)
  register_found (some e) path st =
      if not (has_entry e) then (true, st) else register_pack e path st

  unfoldable pub load_one_pack : Bytes → Packs V H → Bool × Packs V H
  unfolding pack_entries register_found
  load_one_pack path st =
      let st1 = initialised st in
      let (entries, m) = pack_entries st1.getenv path st1.machine in
      if not (nonempty path) || leb pack_max (length st.packs)
      then (false, st)
      else register_found entries path (record st1 { machine = m })

  unfoldable pub load_all : List Bytes → Packs V H → Bool × Packs V H
  unfolding load_one_pack
  load_all [] st = (true, st)
  load_all (path ∷ paths) st =
      let (done, st') = load_one_pack path st in
      let rest = load_all paths st' in if done then rest else (false, st')

  -- The loop that joins the paths with ':' behind `joined`: false is an overflow.
  unfoldable pub join_paths : Bool → List (PackSlot V) → Bytes → Bool × Bytes
  join_paths is_first [] joined = (true, joined)
  join_paths is_first (p ∷ ps) joined =
      let longer = joined ++ ((if is_first then [] else b':' ∷ []) ++ p.path) in
      let rest = join_paths false ps longer in
      if leb pack_spec_max (length longer + 1) then (false, joined) else rest

  abbrev pub failed_load : Packs V H → LoadResult × Packs V H
  failed_load st = (not_loaded, record (unload_packs st) { failed = true })

  -- What follows the unloading.
  unfoldable pub load_paths : List Bytes → Packs V H → LoadResult × Packs V H
  unfolding load_all unload_packs join_paths
  load_paths paths st =
      let (done, st') = load_all paths st in
      let (fits, joined) = join_paths true st'.packs [] in
      if not done
      then failed_load st'
      else if length st'.packs == 0
      then failed_load st'
      else if not fits
      then failed_load (record st' { spec_buf = joined })
      else (
        loaded_all,
        record st' { spec_buf = joined; spec_set = true; loaded = true; failed = false },
      )

  -- What follows the parsing: a specification that is rejected unloads nothing.
  unfoldable pub load_parsed : Option (List Bytes) → Packs V H → LoadResult × Packs V H
  unfolding unload_packs load_paths
  load_parsed none st = (invalid, st)
  load_parsed (some paths) st = load_paths paths (unload_packs st)

  abbrev pub with_files : Files → Packs V H → Packs V H
  with_files f st = record st { machine = record st.machine { files = f } }

  unfoldable pub load_packs_from_spec : Bytes → Bool → Packs V H → LoadResult × Packs V H
  unfolding parse_pack_spec load_parsed
  load_packs_from_spec spec absolute st =
      let (paths, f) = parse_pack_spec sys st.getenv spec absolute st.machine.files in
      if not (nonempty spec) then (invalid, st) else load_parsed paths (with_files f st)

  abbrev pub is_loaded : LoadResult → Bool
  is_loaded loaded_all = true
  is_loaded _ = false

  -- true is the result 0.
  unfoldable pub load_pack_once : Packs V H → Bool × Packs V H
  unfolding default_pack_spec load_packs_from_spec
  load_pack_once st =
      let (spec, f) = default_pack_spec sys st.getenv st.spec_set st.spec_buf st.machine.files in
      let (r, st') = load_packs_from_spec spec false (with_files f st) in
      if st.failed then (false, st) else if st.loaded then (true, st) else (is_loaded r, st')

  -- What phronesis_shell_pack_reload_internal does with the result; setenv may fail.
  unfoldable pub reloaded : LoadResult → Packs V H → Packs V H
  reloaded invalid st = st
  reloaded not_loaded st = record st { spec_buf = []; spec_set = false }
  reloaded loaded_all st =
      let asked : Packs V H = with_files (ask st.machine.files) st in
      if sys.memory st.machine.files.asked
      then record asked { getenv = set_pack_env st.spec_buf st.getenv }
      else asked

  unfoldable pub shell_pack_reload_internal : CString → Packs V H → LoadResult × Packs V H
  unfolding pack_reload_spec_allowed load_packs_from_spec reloaded
  shell_pack_reload_internal path st =
      let spec = or_empty path in
      let (allowed, f) = pack_reload_spec_allowed sys st.getenv spec st.machine.files in
      let (r, st') = load_packs_from_spec spec true (with_files f st) in
      if not (nonempty spec)
      then (invalid, st)
      else if not allowed
      then (invalid, with_files f st)
      else (r, reloaded r st')

  abbrev pub rc_of_loading : LoadResult → Rc
  rc_of_loading loaded_all = ok
  rc_of_loading invalid = err_inval
  rc_of_loading not_loaded = err_io

  unfoldable pub shell_pack_reload : CString → Packs V H → Rc × Packs V H
  unfolding shell_pack_reload_internal
  shell_pack_reload path st =
      let (r, st') = shell_pack_reload_internal path st in (rc_of_loading r, st')
