-- ===== src/Pack/Load/Kept.antt =====
-- What a reload leaves.
use phronesis.Base.{
  ◌≡◌, ◌≢◌, ◌≤◌, ◌<◌, inl, inr, refl, ap, Bool, true, false, Option, none, some, List, [], ◌∷◌,
  arith, leb, ◌==◌, length, length-append, if◌then◌else◌, Bool-cases, not, ◌||◌,
}
use phronesis.Base.CString.{Bytes, CString, nonempty, or_empty}
use phronesis.Policy.Env.{Env}
use phronesis.Pack.Paths.{pack_max}
use phronesis.Pack.Files.{System, Files, ask}
use phronesis.Pack.Spec.{parse_pack_spec, pack_reload_spec_allowed}
use phronesis.Pack.Compile.{Janet, Entries}
use phronesis.Pack.Load.{
  Packs, LoadResult, loaded_all, invalid, not_loaded, unload_packs, register_pack, register_found,
  initialised, load_one_pack, load_all, join_paths, failed_load, load_paths, load_packs_from_spec,
  load_pack_once, load_parsed, with_files, set_pack_env, reloaded, shell_pack_reload_internal,
  pack_entries,
}

module _ {V H : Type 0} (sys : System) (janet : Janet V H) where
  -- The packs and the settings that go with them.
  pub record IsKept (st st' : Packs V H) : Type 0 where
    pub packs : st'.packs ≡ st.packs
    pub is_loaded : st'.loaded ≡ st.loaded
    pub is_failed : st'.failed ≡ st.failed
    pub spec_buf : st'.spec_buf ≡ st.spec_buf
    pub spec_set : st'.spec_set ≡ st.spec_set
    pub getenv : st'.getenv ≡ st.getenv
    pub heap : st'.machine.heap ≡ st.machine.heap

  pub record IsLoaded (st' : Packs V H) : Type 0 where
    pub some_pack : st'.packs ≢ []
    pub at_most : length st'.packs ≤ pack_max
    pub is_loaded : st'.loaded ≡ true
    pub not_failed : st'.failed ≡ false
    pub spec_set : st'.spec_set ≡ true

  -- No pack is left, and the packs do not load until the next successful reload or reset.
  pub record IsClosed (st' : Packs V H) : Type 0 where
    pub no_packs : st'.packs ≡ []
    pub not_loaded : st'.loaded ≡ false
    pub is_failed : st'.failed ≡ true
    pub stays : load_pack_once sys janet st' ≡ (false, st')

  abbrev pub After : Packs V H → LoadResult → Packs V H → Type 0
  After st loaded_all st' = IsLoaded st'
  After st invalid st' = IsKept st st'
  After st not_loaded st' = IsClosed st'

  length-register_found :
      (found : Option (Entries V)) (path : Bytes) (st : Packs V H)
      → length st.packs < pack_max
      → length (register_found sys janet found path st).1.packs ≤ pack_max
  unfolding register_found register_pack
  length-register_found none path st h = omega arith
  length-register_found (some e) path st h =
      ground (arith, length-append {0} st.packs (record { entries = e; path = path } ∷ []))

  length-load_one_pack :
      (path : Bytes) (st : Packs V H)
      → length st.packs ≤ pack_max
      → length (load_one_pack sys janet path st).1.packs ≤ pack_max
  unfolding load_one_pack
  length-load_one_pack path st h =
      let st1 = initialised sys janet st in
      let (entries, m) = pack_entries sys janet st1.getenv path st1.machine in
      let e : length st1.packs ≡ length st.packs = ground arith in
      elim (Bool-cases (not (nonempty path) || leb pack_max (length st.packs))) [
        | inl t ↦ rw t h
        | inr t ↦
            rw t
              (length-register_found entries path (record st1 { machine = m }) (ground (arith, e)))
      ]

  length-load_all :
      (paths : List Bytes) (st : Packs V H)
      → length st.packs ≤ pack_max
      → length (load_all sys janet paths st).1.packs ≤ pack_max
  unfolding load_all
  length-load_all [] st h = h
  length-load_all (path ∷ paths) st h =
      let (done, st') = load_one_pack sys janet path st in
      elim (Bool-cases done) [
        | inl t ↦ rw t (length-load_all paths st' (length-load_one_pack path st h))
        | inr t ↦ rw t (length-load_one_pack path st h)
      ]

  failed_load-IsClosed : (st : Packs V H) → IsClosed (failed_load sys janet st).1
  unfolding unload_packs load_pack_once
  failed_load-IsClosed st = record {
    no_packs = refl;
    not_loaded = refl;
    is_failed = refl;
    stays = refl;
  }

  load_paths-After :
      (paths : List Bytes) (st st0 : Packs V H)
      → length st.packs ≤ pack_max
      → let (r, st') = load_paths sys janet paths st in After st0 r st'
  unfolding load_paths
  load_paths-After paths st st0 h =
      let (done, st') = load_all sys janet paths st in
      let (fits, joined) = join_paths sys janet true st'.packs [] in
      elim (Bool-cases done) [
        | inr t ↦ rw t (failed_load-IsClosed st')
        | inl t ↦ elim (Bool-cases (length st'.packs == 0)) [
          | inl e ↦ rw (t, e) (failed_load-IsClosed st')
          | inr e ↦ elim (Bool-cases fits) [
            | inr k ↦ rw (t, e, k) (failed_load-IsClosed (record st' { spec_buf = joined }))
            | inl k ↦
                rw (t, e, k)
                  (record {
                    some_pack = λ n. ground (arith, ap length n);
                    at_most = length-load_all paths st h;
                    is_loaded = refl;
                    not_failed = refl;
                    spec_set = refl;
                  })
          ]
        ]
      ]

  with_files-IsKept : (f : Files) (st : Packs V H) → IsKept st (with_files sys janet f st)
  with_files-IsKept f st = record {
    packs = refl;
    is_loaded = refl;
    is_failed = refl;
    spec_buf = refl;
    spec_set = refl;
    getenv = refl;
    heap = refl;
  }

  if-After :
      (b : Bool) (x y : LoadResult × Packs V H) (st : Packs V H)
      → After st x.0 x.1
      → After st y.0 y.1
      → let (r, st') = if b then x else y in After st r st'
  if-After true x y st a c = a
  if-After false x y st a c = c

  load_parsed-After :
      (found : Option (List Bytes)) (f : Files) (st : Packs V H)
      → let (r, st') = load_parsed sys janet found (with_files sys janet f st) in After st r st'
  unfolding load_parsed unload_packs
  load_parsed-After none f st = with_files-IsKept f st
  load_parsed-After (some paths) f st =
      load_paths-After paths (unload_packs sys janet (with_files sys janet f st)) st (omega arith)

  pub load_packs_from_spec-After :
      (spec : Bytes) (absolute : Bool) (st : Packs V H)
      → let (r, st') = load_packs_from_spec sys janet spec absolute st in After st r st'
  unfolding load_packs_from_spec
  load_packs_from_spec-After spec absolute st =
      let (found, f) = parse_pack_spec sys st.getenv spec absolute st.machine.files in
      if-After (not (nonempty spec)) (invalid, st)
        (load_parsed sys janet found (with_files sys janet f st)) st
        (with_files-IsKept st.machine.files st) (load_parsed-After found f st)

  with_files-After :
      (r : LoadResult) (f : Files) (st st' : Packs V H)
      → After (with_files sys janet f st) r st'
      → After st r st'
  with_files-After loaded_all f st st' a = a
  with_files-After not_loaded f st st' a = a
  with_files-After invalid f st st' a = record {
    packs = a.packs;
    is_loaded = a.is_loaded;
    is_failed = a.is_failed;
    spec_buf = a.spec_buf;
    spec_set = a.spec_set;
    getenv = a.getenv;
    heap = a.heap;
  }

  reloaded-After :
      (r : LoadResult) (st st' : Packs V H) → After st r st' → After st r (reloaded sys janet r st')
  unfolding reloaded load_pack_once
  reloaded-After invalid st st' a = a
  reloaded-After not_loaded st st' a = record {
    no_packs = a.no_packs;
    not_loaded = a.not_loaded;
    is_failed = a.is_failed;
    stays = rw a.is_failed refl;
  }
  reloaded-After loaded_all st st' a = elim (Bool-cases (sys.memory st'.machine.files.asked)) [
    | inl t ↦ rw t (kept_loaded (set_pack_env st'.spec_buf st'.getenv))
    | inr t ↦ rw t (kept_loaded st'.getenv)
  ]
    where
      kept_loaded :
          (getenv : Env)
          → IsLoaded (record (with_files sys janet (ask st'.machine.files) st') { getenv = getenv })
      kept_loaded getenv = record {
        some_pack = a.some_pack;
        at_most = a.at_most;
        is_loaded = a.is_loaded;
        not_failed = a.not_failed;
        spec_set = a.spec_set;
      }

  -- A reload that succeeds leaves between one and sixteen packs, loaded. One that is rejected leaves
  -- the packs as they were, with the specification, the environment and the heap. One that fails
  -- behind that point leaves no pack, and from there every attempt of a check to load packs fails.
  pub shell_pack_reload-After :
      (path : CString) (st : Packs V H)
      → let (r, st') = shell_pack_reload_internal sys janet path st in After st r st'
  unfolding shell_pack_reload_internal
  shell_pack_reload-After path st =
      let spec = or_empty path in
      let (allowed, f) = pack_reload_spec_allowed sys st.getenv spec st.machine.files in
      let start = with_files sys janet f st in
      let (r, st') = load_packs_from_spec sys janet spec true start in
      if-After (not (nonempty spec)) (invalid, st)
        (if not allowed then (invalid, start) else (r, reloaded sys janet r st')) st
        (with_files-IsKept st.machine.files st)
        (if-After (not allowed) (invalid, start) (r, reloaded sys janet r st') st
          (with_files-IsKept f st)
          (reloaded-After r st st'
            (with_files-After r f st st' (load_packs_from_spec-After spec true start))))
