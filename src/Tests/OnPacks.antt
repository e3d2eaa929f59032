-- ===== src/Tests/OnPacks.antt =====
-- Packs of a small file system and an interpreter whose functions all allow.
use mathlib.Core.List.Perm
use mathlib.Core.Quot.{sound}
use phronesis.ActionLog.Escape.{hex_digit}
use phronesis.Path.Lexical.{trim_slashes, drop_slashes}
use phronesis.Base.{
  ℕ, ◌≡◌, ◌≢◌, ◌≤◌, true, false, none, some, List, [], ◌∷◌, ◌++◌, ◌==◌, length, if◌then◌else◌, refl,
}
use phronesis.Base.Int.{pos, negsuc}
use phronesis.Base.CString.{Bytes, codes, strip_prefix, strcmp_eq}
use phronesis.Beneath.Walk.{Kernel, found}
use phronesis.Wire.Agents.{hex_digits}
use phronesis.Pack.Paths.{pack_max}
use phronesis.Pack.Files.{System, Files, regular_file}
use phronesis.Pack.Listing.{strcmp_le, is_pack_name}
use phronesis.Pack.Listing.Bag.{IsSorted, pack_files}
use phronesis.Pack.Spec.{parse_pack_spec, expand_dir_packs}
use phronesis.Pack.Spec.Bag.{packs_of, expand_dir_packs-IsSorted}
use phronesis.Pack.Spec.Growth.{Grows}
use phronesis.Pack.Spec.Rooted.{AllRooted, parse_pack_spec-AllRooted}
use phronesis.Pack.Compile.{Janet, Machine, buffer}
use phronesis.Pack.Image.{fnv1a_feed, load_pack_image}
use phronesis.Pack.Image.Current.{IsCurrent, load_pack_image-IsCurrent}
use phronesis.Pack.Load.{Packs, load_pack_once, shell_pack_reload_internal}
use phronesis.Pack.Load.Kept.{After, shell_pack_reload-After}
use phronesis.Pack.Compose.{FieldReader, entry_fns, compose_pack_entry}
use phronesis.Pack.Compose.Allowed.{AllAllow, compose_pack_entry-AllAllow}
use phronesis.Tests.Machine.{no_env}

-- openat2 works, and every directory opens.
abbrev new_kernel : Kernel
new_kernel = record { fd_answer = λ calls. some (pos 4); beneath_answer = λ calls. found (pos 5) }

abbrev source : Bytes
source = codes "(defn)"

abbrev image : Bytes
image =
    codes "phronesis-pack-image 1\n"
    ++ (codes "1.4"
        ++ (10
            ∷ (hex_digits 16 (
                  fnv1a_feed (fnv1a_feed 0xcbf29ce484222325 (codes "shell.janet" ++ 0 ∷ [])) source)
                ++ 10 ∷ codes "x")))

-- The pack is /d/shell.janet; the sixth question is for the image.
abbrev pub system : System
system = record {
  default_pack = codes "/d/shell.janet";
  janet_version = codes "1.4";
  kernel = new_kernel;
  stat = λ n path. some regular_file;
  entries = λ n path. none;
  memory = λ n. true;
  size = λ n fd. pos 6;
  contents = λ n fd k. if n == 4 then some image else some source;
  head = λ n path. none;
  written = λ n path bytes. true;
}

-- Values and heaps are numbers; each function returns the byte 65.
abbrev pub interpreter : Janet ℕ ℕ
interpreter = record {
  init = λ h. h;
  core_env = λ h. (some 0, h);
  register = λ env h. h;
  remove = λ env name h. h;
  dobytes = λ env bytes path h. (true, h);
  resolve = λ env name h. some 7;
  is_function = λ v. true;
  is_nil = λ v. false;
  equals = λ a b h. false;
  nil = 0;
  pair = λ a b h. (0, h);
  unpair = λ v h. some (8, 9);
  unmarshal = λ bytes h. (some 1, h);
  marshal = λ v h. (some [], h);
  pcall = λ fn input h. (buffer (65 ∷ []), h);
  gcroot = λ v h. h;
  gcunroot = λ v h. h;
}

abbrev pub files : Files
files = record { asked = 0; fds = []; rootfd = negsuc 0; root = [] }

abbrev pub machine : Machine ℕ
machine = record { files = files; heap = 0 }

abbrev pub two_packs : Packs ℕ ℕ
two_packs = record {
  machine = machine;
  getenv = no_env;
  inited = true;
  loaded = true;
  failed = false;
  packs =
      record { entries = record { shell = some 2; audio = none }; path = codes "/d/a.janet" }
      ∷ record { entries = record { shell = some 3; audio = none }; path = codes "/d/b.janet" }
      ∷ [];
  spec_buf = codes "/d/a.janet:/d/b.janet";
  spec_set = true;
}

-- Every message reads as allow.
abbrev pub reader : FieldReader
reader = λ bytes. some (1, 20)

compose_pack_entry-AllAllow_example :
    let (ready, st') = load_pack_once system interpreter two_packs in
    (ready ≡ true)
    × (entry_fns system interpreter reader true st'.packs ≢ [])
    × AllAllow system interpreter reader
        (codes "view")
        (entry_fns system interpreter reader true st'.packs)
        st'.machine
unfolding compose_pack_entry
compose_pack_entry-AllAllow_example =
    compose_pack_entry-AllAllow system interpreter reader true (codes "view") (65 ∷ []) 20 two_packs
      refl refl

shell_pack_reload-After_example :
    let (r, st') =
      shell_pack_reload_internal system interpreter (some (codes "/d/shell.janet")) two_packs in
    After system interpreter two_packs r st'
shell_pack_reload-After_example =
    shell_pack_reload-After system interpreter (some (codes "/d/shell.janet")) two_packs

abbrev one_path : List Bytes
one_path = codes "/d/shell.janet" ∷ []

parse_pack_spec-AllRooted_example :
    (one_path ≢ [])
    × (length one_path ≤ pack_max)
    × Grows [] one_path
    × AllRooted system no_env one_path
unfolding parse_pack_spec strip_prefix trim_slashes drop_slashes
parse_pack_spec-AllRooted_example =
    parse_pack_spec-AllRooted system no_env (codes "/d/shell.janet") files one_path refl

load_pack_image-IsCurrent_example :
    IsCurrent system interpreter no_env
      (codes "/d/shell.janet")
      machine
      (record { shell = some 8; audio = some 9 })
unfolding load_pack_image strcmp_eq trim_slashes drop_slashes hex_digit
load_pack_image-IsCurrent_example =
    load_pack_image-IsCurrent system interpreter no_env (codes "/d/shell.janet") machine
      (record { shell = some 8; audio = some 9 }) refl

abbrev listed : List Bytes
listed = codes "b.janet" ∷ codes ".c.janet" ∷ codes "a.janet" ∷ codes "lib" ∷ []

abbrev listing : System
listing = record system { entries = λ n path. some listed }

expand_dir_packs-IsSorted_example :
    (expand_dir_packs listing (codes "/d") [] files).0
    ≡ packs_of (codes "/d") [] (codes "a.janet" ∷ codes "b.janet" ∷ [])
unfolding IsSorted pack_files strcmp_le is_pack_name strcmp_eq
expand_dir_packs-IsSorted_example =
    expand_dir_packs-IsSorted listing (λ k. refl) (codes "/d") [] listed
      (codes "a.janet" ∷ codes "b.janet" ∷ []) files refl (refl, tt)
      (sound (Perm.swap (codes "b.janet") (codes "a.janet") []))

-- The files of the directory, in that order.
expanded :
    (expand_dir_packs listing (codes "/d") [] files).0
    ≡ some (codes "/d/a.janet" ∷ codes "/d/b.janet" ∷ [])
unfolding expand_dir_packs strcmp_eq
expanded = refl
