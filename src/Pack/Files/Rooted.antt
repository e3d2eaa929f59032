-- ===== src/Pack/Files/Rooted.antt =====
-- What pack_on_root tells of a path.
use phronesis.Base.{
  ◌≡◌, refl, true, false, ◌&&◌, not, Option, none, some, List, arith, Bool-cases, inl, inr, ap, sym,
}
use phronesis.Base.Int.{ℤ, is_negative}
use phronesis.Base.CString.{Bytes, strcmp_eq}
use phronesis.Base.CString.Laws.{strcmp_eq_iff}
use phronesis.Path.Components.{split}
use phronesis.Policy.Env.{Env}
use phronesis.Beneath.Root.{beneath_rel}
use phronesis.Beneath.Root.Dots.{any_dotdot}
use phronesis.Beneath.Rel.{IsBelow, beneath_rel-IsBelow}
use phronesis.Beneath.Walk.{FdCall, beneath_dir}
use phronesis.Pack.Paths.{pack_path_max, pack_root_path}
use phronesis.Pack.Files.{
  System, Files, ensure_root, ensure_pack_root, root_opened, open_rel, opened, close_opened,
  pack_on_root,
}

module _ (sys : System) (getenv : Env) where
  -- The path leads below the pack root: behind it, with no component "..".
  pub record IsRooted (path : Bytes) : Type 0 where
    pub root : Bytes
    pub is_root : pack_root_path sys.default_pack getenv pack_path_max ≡ some root
    pub rel : Bytes
    pub no_dotdot : any_dotdot (split rel) ≡ false
    pub below : IsBelow root path rel

  root_opened-root :
      (root : Bytes) (answer : Option ℤ × List FdCall) (f : Files)
      → (root_opened sys root answer f).0 ≡ true
      → (root_opened sys root answer f).1.root ≡ root
  root_opened-root root (none, fds) f h = cc
  root_opened-root root (some fd, fds) f h = refl

  ensure_root-root :
      (found : Option Bytes) (f : Files)
      → (ensure_root sys found f).0 ≡ true
      → found ≡ some (ensure_root sys found f).1.root
  unfolding ensure_root
  ensure_root-root none f h = cc
  ensure_root-root (some root) f h =
      let answer = beneath_dir sys.kernel (some root) f.fds in
      elim (Bool-cases (not (is_negative f.rootfd) && strcmp_eq f.root root)) [
        | inl e ↦ ground (arith, strcmp_eq_iff f.root root)
        | inr e ↦
            let k : (root_opened sys root answer f).0 ≡ true = ground arith in
            rw e (ap some (sym (root_opened-root root answer f k)))
      ]

  ensured :
      (f : Files)
      → (ensure_pack_root sys getenv f).0 ≡ true
      → pack_root_path sys.default_pack getenv pack_path_max
        ≡ some (ensure_pack_root sys getenv f).1.root
  unfolding ensure_pack_root
  ensured f h = ensure_root-root (pack_root_path sys.default_pack getenv pack_path_max) f h

  opened_rel :
      (found : Option Bytes) (f : Files)
      → (close_opened sys (open_rel sys found f)).0 ≡ true
      → (rel : Bytes) × (found ≡ some rel)
  unfolding open_rel
  opened_rel none f h = absurd (cc)
  opened_rel (some rel) f h = (rel, refl)

  pub pack_on_root-IsRooted :
      (path : Bytes) (f : Files) → (pack_on_root sys getenv path f).0 ≡ true → IsRooted path
  unfolding pack_on_root opened
  pack_on_root-IsRooted path f h =
      let (ok, f1) = ensure_pack_root sys getenv f in
      elim (Bool-cases ok) [
        | inr e ↦ absurd (ground arith)
        | inl e ↦
            let (rel, q) =
              opened_rel (beneath_rel (some f1.root) (some path) pack_path_max) f1 (ground arith) in
            let (short, dotless, below) = beneath_rel-IsBelow f1.root path rel pack_path_max q in
            record {
              root = f1.root;
              is_root = ensured f e;
              rel = rel;
              no_dotdot = dotless;
              below = below;
            }
      ]
