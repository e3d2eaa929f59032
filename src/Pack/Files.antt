-- ===== src/Pack/Files.antt =====
-- What the packs ask of the file system: path_is_absolute_file to path_is_dir, ensure_pack_root,
-- pack_on_root, append_path, expand_dir_packs and read_pack_file of policy_janet.c.
pub mod Rooted
use phronesis.Base.{
  ℕ, zero, suc, ◌+◌, ◌*◌, Bool, true, false, ◌&&◌, ◌||◌, not, Option, none, some, List, [], ◌∷◌,
  ◌++◌, ltb, leb, ◌==◌, length, if◌then◌else◌,
}
use phronesis.Base.Int.{ℤ, pos, negsuc, is_negative}
use phronesis.Base.CString.{Bytes, CString, codes, nonempty, strcmp_eq}
use phronesis.Path.Lexical.{head_is}
use phronesis.Policy.Env.{Env}
use phronesis.Beneath.Rel
use phronesis.Beneath.Root.{beneath_rel}
use phronesis.Beneath.Walk.{Kernel, FdCall, closed, beneath_dir, beneath_open}
use phronesis.Pack.Paths.{
  pack_path_max, pack_max, env_flag_on, path_has_dotdot, pack_root_path, pack_under_trusted_prefix,
}

-- What stat reports of a path that is there.
pub data Kind : Type 0 where
  regular_file directory other_kind : Kind

-- What is not under this program: the build's default pack, the kernel, and the answers to the n-th
-- question, so that other processes may change the files between any two.
pub record System : Type 0 where
  -- PHRONESIS_DEFAULT_JANET_PACK and JANET_VERSION
  pub default_pack : Bytes
  pub janet_version : Bytes
  pub kernel : Kernel
  -- stat, if it succeeds
  pub stat : ℕ → Bytes → Option Kind
  -- opendir, if it succeeds, and the names that readdir returns
  pub entries : ℕ → Bytes → Option (List Bytes)
  -- Do strdup, malloc, calloc, setenv and a new segment succeed?
  pub memory : ℕ → Bool
  -- lseek(fd, 0, SEEK_END)
  pub size : ℕ → ℤ → ℤ
  -- lseek back, malloc, and a read of so many bytes, if all succeed
  pub contents : ℕ → ℤ → ℕ → Option Bytes
  -- fopen, and the bytes of the file
  pub head : ℕ → Bytes → Option Bytes
  -- fopen, fwrite of the bytes and fclose, if all succeed
  pub written : ℕ → Bytes → Bytes → Bool

-- The questions asked so far, the calls on descriptors, pack_rootfd and pack_root.
pub record Files : Type 0 where
  pub asked : ℕ
  pub fds : List FdCall
  pub rootfd : ℤ
  pub root : Bytes

abbrev pub ask : Files → Files
ask f = record f { asked = suc f.asked }

abbrev pub is_kind : Kind → Option Kind → Bool
is_kind regular_file (some regular_file) = true
is_kind directory (some directory) = true
is_kind _ _ = false

module _ (sys : System) where
  unfoldable pub path_is : Kind → Bytes → Files → Bool × Files
  unfolding path_has_dotdot
  path_is kind path f =
      if not (nonempty path) || leb pack_path_max (length path) || path_has_dotdot (some path)
      then (false, f)
      else (is_kind kind (sys.stat f.asked path), ask f)

  unfoldable pub path_is_absolute : Kind → Bytes → Files → Bool × Files
  unfolding path_is head_is
  path_is_absolute kind path f = if not (head_is b'/' path) then (false, f) else path_is kind path f

  unfoldable pub pack_reload_segment_allowed : Env → Bytes → Files → Bool × Files
  unfolding path_is_absolute env_flag_on pack_under_trusted_prefix
  pack_reload_segment_allowed getenv path f =
      let allowed =
        env_flag_on getenv (codes "PHRONESIS_DEV_PACK")
        || pack_under_trusted_prefix sys.default_pack getenv path in
      let (file, f1) = path_is_absolute regular_file path f in
      let (dir, f2) = path_is_absolute directory path f1 in
      if file then (allowed, f1) else (dir && allowed, f2)

  -- close(pack_rootfd), if it is open
  abbrev close_root : Files → Files
  close_root f = if is_negative f.rootfd then f else record f { fds = closed f.rootfd ∷ f.fds }

  abbrev pub root_opened : Bytes → Option ℤ × List FdCall → Files → Bool × Files
  root_opened root (none, fds) f = (false, record f { fds = fds })
  root_opened root (some fd, fds) f =
      (true, record (close_root (record f { fds = fds })) { rootfd = fd; root = root })

  -- The root fits its buffer, so that the copy into pack_root is never cut.
  unfoldable pub ensure_root : Option Bytes → Files → Bool × Files
  unfolding beneath_dir
  ensure_root none f = (false, f)
  ensure_root (some root) f =
      if not (is_negative f.rootfd) && strcmp_eq f.root root
      then (true, f)
      else root_opened root (beneath_dir sys.kernel (some root) f.fds) f

  unfoldable pub ensure_pack_root : Env → Files → Bool × Files
  unfolding pack_root_path ensure_root
  ensure_pack_root getenv f = ensure_root (pack_root_path sys.default_pack getenv pack_path_max) f

  -- O_RDONLY is 0.
  unfoldable pub open_rel : Option Bytes → Files → Option ℤ × Files
  unfolding beneath_open
  open_rel none f = (none, f)
  open_rel (some rel) f =
      let (fd, fds) = beneath_open sys.kernel f.rootfd (some rel) 0 f.fds in
      (fd, record f { fds = fds })

  unfoldable pub opened : Env → Bytes → Files → Option ℤ × Files
  unfolding ensure_pack_root beneath_rel open_rel
  opened getenv path f =
      let (ok, f1) = ensure_pack_root getenv f in
      if not ok
      then (none, f1)
      else open_rel (beneath_rel (some f1.root) (some path) pack_path_max) f1

  abbrev pub close_fd : ℤ → Files → Files
  close_fd fd f = record f { fds = closed fd ∷ f.fds }

  abbrev pub close_opened : Option ℤ × Files → Bool × Files
  close_opened (none, f) = (false, f)
  close_opened (some fd, f) = (true, close_fd fd f)

  unfoldable pub pack_on_root : Env → Bytes → Files → Bool × Files
  unfolding opened
  pack_on_root getenv path f = close_opened (opened getenv path f)

  -- PACK_IMAGE_MAX is 4 MiB.
  abbrev pub sized : ℤ → Option ℕ
  sized (negsuc n) = none
  sized (pos n) = if n == 0 || ltb (4 * 1024 * 1024) n then none else some n

  unfoldable pub read_fd : ℤ → Files → Option Bytes × Files
  read_fd fd f = elim (sized (sys.size f.asked fd)) [
    | none ↦ (none, close_fd fd (ask f))
    | some n ↦ (sys.contents (suc f.asked) fd n, close_fd fd (ask (ask f)))
  ]

  unfoldable pub read_pack_file : Env → Bytes → Files → Option Bytes × Files
  unfolding opened read_fd
  read_pack_file getenv path f =
      let (fd, f1) = opened getenv path f in elim fd [ none ↦ (none, f1) | some n ↦ read_fd n f1 ]
