-- ===== src/Pack/Spec.antt =====
-- From a pack specification to the files of its packs: append_path, expand_dir_packs,
-- parse_pack_spec, pack_reload_spec_allowed and default_pack_spec of policy_janet.c.
pub mod Bag
pub mod Growth
pub mod Rooted
use phronesis.Base.{
  ℕ, ◌+◌, Bool, true, false, ◌&&◌, ◌||◌, not, Option, none, some, List, [], ◌∷◌, ◌++◌, ltb, leb,
  ◌==◌, length, if◌then◌else◌,
}
use phronesis.Base.CString.{Bytes, CString, codes, nonempty, or_empty, strcmp_eq}
use phronesis.Path.Lexical.{head_is}
use phronesis.Policy.Env.{Env}
use phronesis.Pack.Paths.{pack_path_max, pack_max, pack_spec_max, env_flag_on, spec_tokens}
use phronesis.Pack.Listing.{drop, sort_names, pack_names}
use phronesis.Pack.Files.{
  System, Files, ask, regular_file, directory, path_is, path_is_absolute,
  pack_reload_segment_allowed, pack_on_root,
}

unfoldable pub append_path : Bytes → List Bytes → Option (List Bytes)
append_path path out =
    if not (nonempty path) || leb pack_max (length out) || leb pack_path_max (length path)
    then none
    else some (out ++ path ∷ [])

-- The loop over the sorted names of a directory.
unfoldable pub append_names : Bytes → List Bytes → List Bytes → Option (List Bytes)
unfolding append_path
append_names dir [] out = some out
append_names dir (name ∷ names) out =
    if leb pack_path_max (length (dir ++ b'/' ∷ name))
    then none
    else elim (append_path (dir ++ b'/' ∷ name) out) [
      | none ↦ none
      | some out' ↦ append_names dir names out'
    ]

-- What follows the listing: a directory needs a pack.
unfoldable pub named :
    Bytes → List Bytes → Option (List Bytes) × Files → Option (List Bytes) × Files
unfolding sort_names append_names
named dir out (none, f) = (none, f)
named dir out (some [], f) = (none, f)
named dir out (some (x ∷ names), f) = (append_names dir (sort_names (x ∷ names)) out, f)

module _ (sys : System) where
  unfoldable pub expand_dir_packs : Bytes → List Bytes → Files → Option (List Bytes) × Files
  unfolding pack_names named
  expand_dir_packs dir out f = elim (sys.entries f.asked dir) [
    | none ↦ (none, ask f)
    | some entries ↦ named dir out (pack_names sys 0 entries (ask f))
  ]

  unfoldable pub all_on_root : Env → List Bytes → Files → Bool × Files
  unfolding pack_on_root
  all_on_root getenv [] f = (true, f)
  all_on_root getenv (path ∷ paths) f =
      let (on, f1) = pack_on_root sys getenv path f in
      let rest = all_on_root getenv paths f1 in if on then rest else (false, f1)

  -- if (!pack_on_root(…)) return -1, where the specification must be absolute
  abbrev pub if_rooted :
      Env → Bool → List Bytes → (Option (List Bytes)) × Files → (Option (List Bytes)) × Files
  if_rooted getenv absolute before (none, f) = (none, f)
  if_rooted getenv absolute before (some out, f) =
      let (on, f') = all_on_root getenv (drop (length before) out) f in
      if not absolute then (some out, f) else if on then (some out, f') else (none, f')

  -- A directory: path_is_dir(tok) || (require_absolute && path_is_absolute_dir(tok))
  unfoldable pub is_pack_dir : Bool → Bytes → Files → Bool × Files
  unfolding path_is path_is_absolute
  is_pack_dir absolute tok f =
      let (dir, f1) = path_is sys directory tok f in
      let (abs, f2) = path_is_absolute sys directory tok f1 in
      if dir then (true, f1) else if absolute then (abs, f2) else (false, f1)

  unfoldable pub is_pack_file : Bool → Bytes → Files → Bool × Files
  unfolding path_is path_is_absolute
  is_pack_file absolute tok f =
      if absolute then path_is_absolute sys regular_file tok f else path_is sys regular_file tok f

  -- One round of the loop, behind the tests of require_absolute.
  unfoldable pub expand_token :
      Env → Bool → Bytes → List Bytes → Files → Option (List Bytes) × Files
  unfolding expand_dir_packs all_on_root is_pack_dir is_pack_file append_path drop
  expand_token getenv absolute tok out f =
      let (dir, f1) = is_pack_dir absolute tok f in
      let expanded = if_rooted getenv absolute out (expand_dir_packs tok out f1) in
      let (file, f2) = is_pack_file absolute tok f1 in
      if dir then expanded else if not file then (none, f2) else (append_path tok out, f2)

  unfoldable pub parse_tokens :
      Env → Bool → List Bytes → List Bytes → Files → Option (List Bytes) × Files
  unfolding expand_token
  parse_tokens getenv absolute [] out f = (some out, f)
  parse_tokens getenv absolute (tok ∷ toks) out f =
      let (on, f1) = pack_on_root sys getenv tok f in
      let (found, f2) = expand_token getenv absolute tok out (if absolute then f1 else f) in
      let rest : Option (List Bytes) × Files = elim found [
        | none ↦ (none, f2)
        | some out' ↦ parse_tokens getenv absolute toks out' f2
      ] in
      if absolute && not (head_is b'/' tok)
      then (none, f)
      else if absolute && not on
      then (none, f1)
      else rest

  abbrev pub if_any : Option (List Bytes) → Option (List Bytes)
  if_any (some []) = none
  if_any found = found

  -- `some paths` is the result 0 with at most pack_max paths, none is -1.
  unfoldable pub parse_pack_spec : Env → Bytes → Bool → Files → Option (List Bytes) × Files
  unfolding parse_tokens spec_tokens
  parse_pack_spec getenv spec absolute f =
      let (found, f') = parse_tokens getenv absolute (spec_tokens spec) [] f in
      if not (nonempty spec) || leb pack_spec_max (length spec)
      then (none, f)
      else (if_any found, f')

  unfoldable pub segments_allowed : Env → List Bytes → Files → Bool × Files
  unfolding pack_reload_segment_allowed
  segments_allowed getenv [] f = (true, f)
  segments_allowed getenv (tok ∷ toks) f =
      let (ok, f1) = pack_reload_segment_allowed sys getenv tok f in
      let rest = segments_allowed getenv toks f1 in if ok then rest else (false, f1)

  abbrev any_token : List Bytes → Bool
  any_token [] = false
  any_token (tok ∷ toks) = true

  unfoldable pub pack_reload_spec_allowed : Env → Bytes → Files → Bool × Files
  unfolding segments_allowed spec_tokens
  pack_reload_spec_allowed getenv spec f =
      let (ok, f1) = segments_allowed getenv (spec_tokens spec) f in
      if not (nonempty spec) || leb pack_spec_max (length spec)
      then (false, f)
      else (ok && any_token (spec_tokens spec), f1)

  -- The candidates that are not empty, in their order; the first that is a file, else the default.
  unfoldable pub first_file : List Bytes → Files → Bytes × Files
  unfolding path_is
  first_file [] f = (sys.default_pack, f)
  first_file (cand ∷ cands) f =
      let (is, f1) = path_is sys regular_file cand f in
      let rest = first_file cands f1 in if is then (cand, f1) else rest

  abbrev pub candidates : Env → List Bytes
  candidates getenv =
      let prefix = or_empty (getenv (codes "PHRONESIS_PREFIX")) in
      let pack = prefix ++ codes "/share/phronesis/policy/shell.janet" in
      sys.default_pack
      ∷ ((if nonempty prefix && ltb (length pack) pack_path_max then pack ∷ [] else [])
          ++ (codes "/usr/local/share/phronesis/policy/shell.janet"
              ∷ codes "/usr/share/phronesis/policy/shell.janet"
              ∷ (if env_flag_on getenv (codes "PHRONESIS_DEV_PACK")
                  then codes "policy/shell.janet" ∷ []
                  else [])))

  -- `set` is pack_spec_set && pack_spec_buf[0], and `buf` pack_spec_buf.
  unfoldable pub default_pack_spec : Env → Bool → Bytes → Files → Bytes × Files
  unfolding first_file pack_reload_spec_allowed env_flag_on
  default_pack_spec getenv set buf f =
      let e = or_empty (getenv (codes "PHRONESIS_JANET_PACK")) in
      let (ok, f1) = pack_reload_spec_allowed getenv e f in
      let f2 = if nonempty e then f1 else f in
      let found = first_file (candidates getenv) f2 in
      if set && nonempty buf then (buf, f) else if nonempty e && ok then (e, f1) else found
