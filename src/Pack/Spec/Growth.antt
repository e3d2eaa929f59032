-- ===== src/Pack/Spec/Growth.antt =====
-- How the list of paths grows while a specification is expanded.
use phronesis.Base.{
  ◌≡◌, ◌≢◌, ◌≤◌, ◌<◌, refl, true, Option, none, some, List, [], ◌∷◌, ◌++◌, arith, length,
  length-append, append_assoc, append-nil, Option-cases, inl, inr, ◌∙◌, ap, sym,
}
use mathlib.Core.Path.{subst}
use phronesis.Base.CString.{Bytes, nonempty}
use phronesis.Pack.Paths.{pack_path_max, pack_max}
use phronesis.Pack.Files.{System, Files, ask}
use phronesis.Pack.Listing.{drop, sort_names, pack_names}
use phronesis.Pack.Spec.{append_path, append_names, named, expand_dir_packs, if_any}

-- The list goes on from `out` by paths that fit the table and their slots.
pub data Grows (out : List Bytes) : List Bytes → Type 0 where
  same : Grows out out
  more :
      {out' : List Bytes} (path : Bytes)
      → nonempty path ≡ true
      → length path < pack_path_max
      → length out' < pack_max
      → Grows out out'
      → Grows out (out' ++ path ∷ [])

pub Grows-trans : {a b c : List Bytes} → Grows a b → Grows b c → Grows a c
Grows-trans g same = g
Grows-trans g (more path e l k h) = more path e l k (Grows-trans g h)

pub append_path-Grows :
    (path : Bytes) (out out' : List Bytes) → append_path path out ≡ some out' → Grows out out'
unfolding append_path
append_path-Grows path out out' h =
    let same_list : out ++ path ∷ [] ≡ out' = ground arith in
    subst (Grows out) same_list (more path (ground arith) (ground arith) (ground arith) same)

append_names-Grows :
    (dir : Bytes) (names out out' : List Bytes)
    → append_names dir names out ≡ some out'
    → Grows out out'
unfolding append_names
append_names-Grows dir [] out out' h = subst (Grows out) (ground arith) same
append_names-Grows dir (name ∷ names) out out' h =
    elim (Option-cases (append_path (dir ++ b'/' ∷ name) out)) [
      | inl e ↦ absurd (ground arith)
      | inr (next, e) ↦
          Grows-trans (append_path-Grows (dir ++ b'/' ∷ name) out next e)
            (append_names-Grows dir names next out' (ground arith))
    ]

pub Grows-added : {a b : List Bytes} → Grows a b → (c : List Bytes) × (b ≡ a ++ c)
Grows-added {a} same = ([], sym (append-nil a))
Grows-added {a} (more path e l k g) =
    let (c, q) = Grows-added g in
    (c ++ path ∷ [], ap (λ (x : List Bytes). x ++ path ∷ []) q ∙ append_assoc a c (path ∷ []))

pub Grows-length : (out : List Bytes) → Grows [] out → length out ≤ pack_max
Grows-length out same = omega arith
Grows-length out (more {out'} path e l k g) = omega (arith, k, length-append {0} out' (path ∷ []))

pub drop-append : (a c : List Bytes) → drop (length a) (a ++ c) ≡ c
unfolding drop
drop-append [] c = refl
drop-append (x ∷ a) c = drop-append a c

-- A directory that is expanded.
module _ (sys : System) where
  names_found :
      (dir : Bytes) (out out' : List Bytes) (found : Option (List Bytes)) (f : Files)
      → (named dir out (found, f)).0 ≡ some out'
      → Grows out out'
  unfolding named
  names_found dir out out' none f h = absurd (ground arith)
  names_found dir out out' (some []) f h = absurd (ground arith)
  names_found dir out out' (some (x ∷ names)) f h =
      append_names-Grows dir (sort_names (x ∷ names)) out out' h

  pub expand_dir_packs-Grows :
      (dir : Bytes) (out out' : List Bytes) (f : Files)
      → (expand_dir_packs sys dir out f).0 ≡ some out'
      → Grows out out'
  unfolding expand_dir_packs
  expand_dir_packs-Grows dir out out' f h = elim (Option-cases (sys.entries f.asked dir)) [
    | inl e ↦ absurd (ground arith)
    | inr (entries, e) ↦
        let (found, f') = pack_names sys 0 entries (ask f) in
        names_found dir out out' found f' (ground arith)
  ]

  pub if_any_lem :
      (found : Option (List Bytes)) (paths : List Bytes)
      → if_any sys found ≡ some paths
      → (found ≡ some paths) × (paths ≢ [])
  if_any_lem none paths h = absurd (ground arith)
  if_any_lem (some []) paths h = absurd (ground arith)
  if_any_lem (some (x ∷ l)) paths h = (h, ground arith)
