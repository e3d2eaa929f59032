-- ===== src/Pack/ImageMain.antt =====
-- src/pack_image_main.c: the tool that writes the image of one pack.
use phronesis.Base.{ℕ, false, not, none, some, List, [], ◌∷◌, if◌then◌else◌}
use phronesis.Base.CString.{Bytes, CString, codes, strcmp_eq}
use phronesis.Policy.Env.{Env}
use phronesis.Pack.Paths.{before_slash, directory_of}
use phronesis.Pack.Files.{System, ask}
use phronesis.Pack.Compile.{Janet, Machine}
use phronesis.Pack.Image.{pack_image_write}

-- setenv("PHRONESIS_PACK_ROOT", root, 1)
abbrev pub set_pack_root : Bytes → Env → Env
set_pack_root root getenv name =
    if strcmp_eq name (codes "PHRONESIS_PACK_ROOT") then some root else getenv name

module _ {V H : Type 0} (sys : System) (janet : Janet V H) (realpath : Bytes → CString) where
  -- The exit code of main for argv, with the state that is left.
  unfoldable pub image_main : List Bytes → Env → Machine H → ℕ × Machine H
  unfolding before_slash pack_image_write
  image_main (name ∷ pack_path ∷ out_path ∷ []) getenv m = elim (realpath pack_path) [
    | none ↦ (1, m)
    | some pack ↦ elim (directory_of pack) [
      | none ↦ (1, m)
      | some root ↦
          let m' : Machine H = record m { files = ask m.files } in
          let (done, m2) =
            pack_image_write sys janet (set_pack_root root getenv) (some pack) (some out_path) false
              m' in
          if not (sys.memory m.files.asked) then (1, m') else if done then (0, m2) else (1, m2)
    ]
  ]
  image_main argv getenv m = (2, m)
