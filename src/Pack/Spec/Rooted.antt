-- ===== src/Pack/Spec/Rooted.antt =====
-- The paths that the specification of a reload gives.
use phronesis.Base.{
  ◌≡◌, ◌≢◌, ◌≤◌, true, Option, none, some, List, [], ◌∷◌, ◌++◌, arith, length, Bool-cases,
  Option-cases, inl, inr, ◌∙◌, ap, sym,
}
use mathlib.Core.Path.{subst}
use phronesis.Base.CString.{Bytes}
use phronesis.Path.Lexical.{head_is}
use phronesis.Policy.Env.{Env}
use phronesis.Pack.Paths.{pack_max, spec_tokens}
use phronesis.Pack.Files.{System, Files, pack_on_root}
use phronesis.Pack.Files.Rooted.{IsRooted, pack_on_root-IsRooted}
use phronesis.Pack.Listing.{drop}
use phronesis.Pack.Spec.{
  append_path, expand_dir_packs, all_on_root, if_rooted, is_pack_dir, is_pack_file, expand_token,
  parse_tokens, parse_pack_spec,
}
use phronesis.Pack.Spec.Growth.{
  Grows, same, Grows-trans, append_path-Grows, Grows-added, Grows-length, drop-append,
  expand_dir_packs-Grows, if_any_lem,
}

module _ (sys : System) (getenv : Env) where
  pub data AllRooted : List Bytes → Type 0 where
    no_paths : AllRooted []
    rooted :
        {path : Bytes} {paths : List Bytes}
        → IsRooted sys getenv path
        → AllRooted paths
        → AllRooted (path ∷ paths)

  AllRooted-append : {a b : List Bytes} → AllRooted a → AllRooted b → AllRooted (a ++ b)
  AllRooted-append no_paths h = h
  AllRooted-append (rooted r g) h = rooted r (AllRooted-append g h)

  all_on_root-AllRooted :
      (paths : List Bytes) (f : Files) → (all_on_root sys getenv paths f).0 ≡ true → AllRooted paths
  unfolding all_on_root
  all_on_root-AllRooted [] f h = no_paths
  all_on_root-AllRooted (path ∷ paths) f h =
      let (on, f1) = pack_on_root sys getenv path f in
      elim (Bool-cases on) [
        | inl e ↦
            rooted (pack_on_root-IsRooted sys getenv path f e)
              (all_on_root-AllRooted paths f1 (ground arith))
        | inr e ↦ absurd (ground arith)
      ]

  abbrev Step : List Bytes → List Bytes → Type 0
  Step out out' = AllRooted out' × Grows out out'

  if_rooted-AllRooted :
      (out out' : List Bytes) (r : Option (List Bytes) × Files)
      → (if_rooted sys getenv true out r).0 ≡ some out'
      → (r.0 ≡ some out') × AllRooted (drop (length out) out')
  if_rooted-AllRooted out out' (none, f) h = absurd (ground arith)
  if_rooted-AllRooted out out' (some found, f) h =
      let (on, f') = all_on_root sys getenv (drop (length out) found) f in
      elim (Bool-cases on) [
        | inr e ↦ absurd (ground arith)
        | inl e ↦
            let k : found ≡ out' = ground arith in
            (
              ap some k,
              subst (λ (l : List Bytes). AllRooted (drop (length out) l)) k
                  (all_on_root-AllRooted (drop (length out) found) f e),
            )
      ]

  expanded-Step :
      (tok : Bytes) (out out' : List Bytes) (f : Files)
      → AllRooted out
      → (if_rooted sys getenv true out (expand_dir_packs sys tok out f)).0 ≡ some out'
      → Step out out'
  expanded-Step tok out out' f v h =
      let (found, on) = if_rooted-AllRooted out out' (expand_dir_packs sys tok out f) h in
      let g = expand_dir_packs-Grows sys tok out out' f found in
      let (c, q) = Grows-added g in
      let added : AllRooted c = subst AllRooted (ap (drop (length out)) q ∙ drop-append out c) on in
      (subst AllRooted (sym q) (AllRooted-append v added), g)

  appended_rooted :
      (tok : Bytes) (out out' : List Bytes)
      → IsRooted sys getenv tok
      → AllRooted out
      → append_path tok out ≡ some out'
      → AllRooted out'
  unfolding append_path
  appended_rooted tok out out' r v h =
      let k : out ++ tok ∷ [] ≡ out' = ground arith in
      subst AllRooted k (AllRooted-append v (rooted r no_paths))

  expand_token-Step :
      (tok : Bytes) (out out' : List Bytes) (f : Files)
      → IsRooted sys getenv tok
      → AllRooted out
      → (expand_token sys getenv true tok out f).0 ≡ some out'
      → Step out out'
  unfolding expand_token
  expand_token-Step tok out out' f r v h =
      let (dir, f1) = is_pack_dir sys true tok f in
      let (file, f2) = is_pack_file sys true tok f1 in
      elim (Bool-cases dir) [
        | inl e ↦ expanded-Step tok out out' f1 v (ground arith)
        | inr e ↦ elim (Bool-cases file) [
          | inr k ↦ absurd (ground arith)
          | inl k ↦
              let a : append_path tok out ≡ some out' = ground arith in
              (appended_rooted tok out out' r v a, append_path-Grows tok out out' a)
        ]
      ]

  parse_tokens-Step :
      (toks : List Bytes) (out out' : List Bytes) (f : Files)
      → AllRooted out
      → (parse_tokens sys getenv true toks out f).0 ≡ some out'
      → Step out out'
  unfolding parse_tokens
  parse_tokens-Step [] out out' f v h =
      let k : out ≡ out' = ground arith in (subst AllRooted k v, subst (Grows out) k same)
  parse_tokens-Step (tok ∷ toks) out out' f v h =
      let (on, f1) = pack_on_root sys getenv tok f in
      let (found, f2) = expand_token sys getenv true tok out f1 in
      elim (Bool-cases (head_is b'/' tok)) [
        | inr e ↦ absurd (ground arith)
        | inl e ↦ elim (Bool-cases on) [
          | inr k ↦ absurd (ground arith)
          | inl k ↦ elim (Option-cases found) [
            | inl n ↦ absurd (ground arith)
            | inr (next, n) ↦
                let (v', g) =
                  expand_token-Step tok out next f1 (pack_on_root-IsRooted sys getenv tok f k) v
                    n in
                let (w, g') = parse_tokens-Step toks next out' f2 v' (ground arith) in
                (w, Grows-trans g g')
          ]
        ]
      ]

  -- A specification that a reload accepts gives at least one path and at most sixteen. Each path is
  -- not empty, fits its slot with the NUL, and leads below the pack root with no component "..".
  pub parse_pack_spec-AllRooted :
      (spec : Bytes) (f : Files) (paths : List Bytes)
      → (parse_pack_spec sys getenv spec true f).0 ≡ some paths
      → (paths ≢ []) × (length paths ≤ pack_max) × Grows [] paths × AllRooted paths
  unfolding parse_pack_spec
  parse_pack_spec-AllRooted spec f paths h =
      let (found, f') = parse_tokens sys getenv true (spec_tokens spec) [] f in
      let (q, some_path) = if_any_lem sys found paths (ground arith) in
      let (v, g) = parse_tokens-Step (spec_tokens spec) [] paths f no_paths q in
      (some_path, Grows-length paths g, g, v)
