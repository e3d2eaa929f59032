-- ===== src/Policy/Workspace/Containment.antt =====
-- What path_under_workspace decides, in terms of the components of the two paths.
use phronesis.Base.{
  ◌≡◌, refl, ◌∙◌, true, ◌&&◌, some, List, [], ◌∷◌, ◌++◌, inl, inr, arith, Option-cases,
}
use phronesis.Base.CString.{Bytes, strcmp_eq, strip_prefix}
use phronesis.Base.CString.Laws.{strip_prefix-eq_some}
use phronesis.Path.Components.{
  first, later, split, names, keep_names, clean_components, no_dots, no_dots_of_clean,
}
use phronesis.Path.Lexical.{
  head_is, next, at_boundary, trim_slashes, names-trim_slashes, names-append_boundary,
}
use phronesis.Policy.Workspace.{
  after_slash, clean_from, is_clean_abs_path, under_prefix, path_under_workspace,
}

-- One turn at a '/' tests the component that follows it.
after_slash-components :
    (r : Bytes) → after_slash r (clean_components (later r)) ≡ clean_components (split r)
unfolding after_slash clean_components first later head_is next at_boundary strcmp_eq
after_slash-components [] = refl
after_slash-components (a ∷ []) = ground arith
after_slash-components (a ∷ b ∷ []) = ground arith
after_slash-components (a ∷ b ∷ c ∷ r) = ground arith

clean_from-components : (s : Bytes) → clean_from s ≡ clean_components (later s)
unfolding clean_from clean_components later
clean_from-components [] = refl
clean_from-components (c ∷ r) = ground (arith, clean_from-components r, after_slash-components r)

-- The loop over the bytes accepts exactly the paths that begin with '/', that hold no component
-- "." or ".." behind it, and in which only the last component may be empty.
pub is_clean_abs_path-components :
    (s : Bytes) → is_clean_abs_path s ≡ (head_is b'/' s && clean_components (later s))
unfolding is_clean_abs_path
is_clean_abs_path-components s = rw clean_from-components

pub first-head_is : (s : Bytes) → head_is b'/' s ≡ true → first s ≡ []
unfolding head_is first
first-head_is [] h = refl
first-head_is (c ∷ s) h = ground arith

pub names-clean : (s : Bytes) → is_clean_abs_path s ≡ true → no_dots (names s) ≡ true
unfolding keep_names
names-clean s h =
    let e = rw is_clean_abs_path-components at h in
    ground (arith, first-head_is s, no_dots_of_clean (later s))

under_prefix-names :
    (w p : Bytes)
    → under_prefix (trim_slashes w) p ≡ true
    → (rest : List Bytes) × (names p ≡ names w ++ rest)
unfolding under_prefix
under_prefix-names w p h = elim (Option-cases (strip_prefix (trim_slashes w) p)) [
  | inl no_match ↦ absurd (ground arith)
  | inr (r, e) ↦
      let (rest, f) = names-append_boundary (trim_slashes w) r (ground arith) in
      (rest, rw (strip_prefix-eq_some (trim_slashes w) p r e) (f ∙ rw names-trim_slashes))
]

-- A path that path_under_workspace accepts has the workspace's components first, and none of its
-- components is "." or "..".
pub path_under_workspace-names :
    (w p : Bytes)
    → path_under_workspace (some w) (some p) ≡ true
    → ((rest : List Bytes) × (names p ≡ names w ++ rest)) × (no_dots (names p) ≡ true)
unfolding path_under_workspace
path_under_workspace-names w p h =
    (under_prefix-names w p (ground arith), names-clean p (ground arith))
