-- ===== src/Pack/Compile.antt =====
-- The Janet interpreter as a parameter, and compile_pack with what it calls: dobytes_file,
-- pack_lib_names, load_pack_libs, resolve_fn and seal_pack_env of policy_janet.c. The trace events of
-- playground builds are left out.
use phronesis.Base.{
  ◌+◌, ◌*◌, Bool, true, false, ◌||◌, not, Option, none, some, List, [], ◌∷◌, ◌++◌, ltb, leb, length,
  if◌then◌else◌,
}
use phronesis.Base.CString.{Bytes, codes}
use phronesis.Policy.Env.{Env}
use phronesis.Pack.Paths.{pack_path_max, before_slash, directory_of}
use phronesis.Pack.Files.{System, Files, ask, read_pack_file}
use phronesis.Pack.Listing.{sort_names, pack_names}

-- What a call of a Janet function gives: a signal that is not OK, a value that is no buffer, or the
-- bytes of a buffer.
pub data Called : Type 0 where
  signalled no_buffer : Called
  buffer : Bytes → Called

-- The interpreter: values V over a heap H, which every call may change.
pub record Janet (V H : Type 0) : Type 0 where
  pub init : H → H
  -- janet_core_env(NULL)
  pub core_env : H → Option V × H
  -- capnp_janet_register
  pub register : V → H → H
  -- janet_table_remove of a symbol
  pub remove : V → Bytes → H → H
  -- janet_dobytes of the bytes of a file: did it return 0?
  pub dobytes : V → Bytes → Bytes → H → Bool × H
  -- janet_resolve; none is JANET_BINDING_NONE
  pub resolve : V → Bytes → H → Option V
  pub is_function : V → Bool
  pub is_nil : V → Bool
  pub equals : V → V → H → Bool
  pub nil : V
  -- janet_tuple_n of two values, and the two values of a tuple of that length
  pub pair : V → V → H → V × H
  pub unpair : V → H → Option (V × V)
  -- unmarshal_guarded and marshal_guarded; none is a panic
  pub unmarshal : Bytes → H → Option V × H
  pub marshal : V → H → Option Bytes × H
  -- janet_pcall with a buffer of the bytes
  pub pcall : V → Bytes → H → Called × H
  pub gcroot : V → H → H
  pub gcunroot : V → H → H

pub record Machine (H : Type 0) : Type 0 where
  pub files : Files
  pub heap : H

-- shell_fn where has_shell is set, and audio_fn where has_audio is.
pub record Entries (V : Type 0) : Type 0 where
  pub shell : Option V
  pub audio : Option V

abbrev pub is_given : {V : Type 0} → Option V → Bool
is_given none = false
is_given (some v) = true

abbrev pub has_entry : {V : Type 0} → Entries V → Bool
has_entry e = is_given e.shell || is_given e.audio

module _ (sys : System) where
  -- The directory lib/ beside a pack, and its names; none is -1.
  unfoldable pub pack_lib_names : Bytes → Files → Option (Bytes × List Bytes) × Files
  unfolding before_slash pack_names sort_names
  pack_lib_names path f = elim (directory_of path) [
    | none ↦ (some ([], []), f)
    | some dir ↦
        let libdir = dir ++ codes "/lib" in
        if leb pack_path_max (length dir + 1)
        then (none, f)
        else if leb pack_path_max (length libdir)
        then (none, f)
        else elim (sys.entries f.asked libdir) [
          | none ↦ (some (libdir, []), ask f)
          | some entries ↦
              let (found, f') = pack_names sys 0 entries (ask f) in
              (elim found [ none ↦ none | some names ↦ some (libdir, sort_names names) ], f')
        ]
  ]

module _ {V H : Type 0} (sys : System) (janet : Janet V H) (getenv : Env) where
  -- PACK_FILE_MAX is 512 KiB.
  unfoldable pub dobytes_file : V → Bytes → Machine H → Bool × Machine H
  unfolding read_pack_file
  dobytes_file env path m =
      let (buf, f) = read_pack_file sys getenv path m.files in
      let m' : Machine H = record m { files = f } in
      elim buf [
        | none ↦ (false, m')
        | some bytes ↦
            let (ok, h) = janet.dobytes env bytes path m'.heap in
            if ltb (512 * 1024) (length bytes) then (false, m') else (ok, record m' { heap = h })
      ]

  -- The loop over the names of lib/.
  unfoldable pub load_libs : V → Bytes → List Bytes → Machine H → Bool × Machine H
  unfolding dobytes_file
  load_libs env libdir [] m = (true, m)
  load_libs env libdir (name ∷ names) m =
      let path = libdir ++ b'/' ∷ name in
      let (ok, m') = dobytes_file env path m in
      let rest = load_libs env libdir names m' in
      if leb pack_path_max (length path) then (false, m) else if ok then rest else (false, m')

  unfoldable pub load_pack_libs : V → Bytes → Machine H → Bool × Machine H
  unfolding pack_lib_names load_libs
  load_pack_libs env path m =
      let (found, f) = pack_lib_names sys path m.files in
      let m' : Machine H = record m { files = f } in
      elim found [ none ↦ (false, m') | some (libdir, names) ↦ load_libs env libdir names m' ]

  unfoldable pub resolve_fn : V → Bytes → H → Option V
  resolve_fn env name h = elim (janet.resolve env name h) [
    | none ↦ none
    | some v ↦ if janet.is_function v then some v else none
  ]

  unfoldable pub seal_pack_env : V → H → H
  seal_pack_env env h =
      janet.remove env (codes "spork")
        (janet.remove env (codes "net") (janet.remove env (codes "os") h))

  -- An entry counts when the file binds it anew.
  unfoldable pub new_entry : Option V → Option V → H → Option V
  new_entry before none h = none
  new_entry none (some fn) h = some fn
  new_entry (some b) (some fn) h = if janet.equals b fn h then none else some fn

  -- What follows the creation of the env.
  unfoldable pub compile_in : V → Bytes → Machine H → Option (Entries V) × Machine H
  unfolding load_pack_libs resolve_fn dobytes_file new_entry
  compile_in env path m =
      let (libs, m1) = load_pack_libs env path m in
      let shell_before = resolve_fn env (codes "shell-check") m1.heap in
      let audio_before = resolve_fn env (codes "audio-check") m1.heap in
      let (done, m2) = dobytes_file env path m1 in
      let shell = resolve_fn env (codes "shell-check") m2.heap in
      let audio = resolve_fn env (codes "audio-check") m2.heap in
      if not libs then (none, m1) else if not done then (none, m2) else (
        some (record {
          shell = new_entry shell_before shell m2.heap;
          audio = new_entry audio_before audio m2.heap;
        }),
        m2,
      )

  unfoldable pub compile_pack : Bytes → Machine H → Option (Entries V) × Machine H
  unfolding seal_pack_env compile_in
  compile_pack path m =
      let (env, h) = janet.core_env m.heap in
      elim env [
        | none ↦ (none, record m { heap = h })
        | some e ↦ compile_in e path (record m { heap = seal_pack_env e (janet.register e h) })
      ]
