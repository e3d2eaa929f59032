-- ===== src/Policy/Sensitive/Prefix.antt =====
-- Sensitivity does not depend on where a path is mounted.
use phronesis.Base.{
  ℕ, ◌≡◌, true, none, some, [], ◌∷◌, ◌++◌, append_assoc, arith, inl, inr, Option-cases,
}
use phronesis.Base.CString.{Bytes, codes, strstr, strrchr}
use phronesis.Policy.Sensitive.{
  base_name, sensitive_component, sensitive_extension, path_is_sensitive, sensitive_path,
}

strrchr-append :
    (a s : Bytes) (c : ℕ) {t : Bytes} → strrchr s c ≡ some t → strrchr (a ++ s) c ≡ some t
unfolding strrchr
strrchr-append [] s c h = h
strrchr-append (d ∷ a) s c h = ground (arith, strrchr-append a s c h)

strstr-append : (a s needle : Bytes) → strstr s needle ≡ true → strstr (a ++ s) needle ≡ true
unfolding strstr
strstr-append [] s needle h = h
strstr-append (d ∷ a) s needle h = ground (arith, strstr-append a s needle h)

strrchr_self : (c : ℕ) (s : Bytes) → strrchr s c ≡ none → strrchr (c ∷ s) c ≡ some (c ∷ s)
unfolding strrchr
strrchr_self c s h = ground arith

strrchr_cons : (s : Bytes) (c : ℕ) {t : Bytes} → strrchr s c ≡ some t → (u : Bytes) × (t ≡ c ∷ u)
unfolding strrchr
strrchr_cons [] c h = absurd (ground arith)
strrchr_cons (d ∷ s) c {t} h = elim (Option-cases (strrchr s c)) [
  | inl e ↦ (s, ground arith)
  | inr (t', e) ↦ let (u, f) = strrchr_cons s c e in (u, ground arith)
]

-- The base name of a path below a directory is that of the path.
pub base_name-append : (a s : Bytes) → base_name (a ++ b'/' ∷ s) ≡ base_name s
unfolding base_name
base_name-append a s = elim (Option-cases (strrchr s b'/')) [
  | inl e ↦ rw (strrchr-append a (b'/' ∷ s) b'/' (strrchr_self b'/' s e), e, base_name)
  | inr (t, e) ↦
      let (u, f) = strrchr_cons s b'/' e in
      let e' = rw f at e in
      rw (strrchr-append a (b'/' ∷ s) b'/' (strrchr-append (b'/' ∷ []) s b'/' e'), e', base_name)
]

component-append :
    (a s : Bytes) → sensitive_component s ≡ true → sensitive_component (a ++ s) ≡ true
unfolding sensitive_component
component-append a s h = ground (
  arith,
  strstr-append a s (codes "/.ssh/"),
  strstr-append a s (codes "/.gnupg/"),
  strstr-append a s (codes "/.aws/"),
  strstr-append a s (codes "/.kube/"),
  strstr-append a s (codes "/.docker/"),
  strstr-append a s (codes "/.password-store/"),
  strstr-append a s (codes "/.config/gcloud/"),
  strstr-append a s (codes "/private_dot_"),
  strstr-append a s (codes "/.vault/"),
)

extension-append :
    (a s : Bytes) → sensitive_extension s ≡ true → sensitive_extension (a ++ s) ≡ true
unfolding sensitive_extension
extension-append a s h = elim (Option-cases (strrchr s b'.')) [
  | inl e ↦ absurd (ground arith)
  | inr (t, e) ↦ rw (strrchr-append a s b'.' e, sensitive_extension) (ground arith)
]

sensitive_path-append :
    (dir path : Bytes) → sensitive_path path ≡ true → sensitive_path (dir ++ b'/' ∷ path) ≡ true
unfolding sensitive_path
sensitive_path-append dir path h =
    let component = component-append (dir ++ b'/' ∷ []) path in
    let extension = extension-append (dir ++ b'/' ∷ []) path in
    let grouped = append_assoc dir (b'/' ∷ []) path in
    ground (arith, base_name-append dir path, rw grouped at component, rw grouped at extension)

-- A path that is sensitive is sensitive below every directory, whether by its base name, by a
-- component or by its extension.
pub path_is_sensitive-append :
    (dir path : Bytes)
    → path_is_sensitive (some path) ≡ true
    → path_is_sensitive (some (dir ++ b'/' ∷ path)) ≡ true
unfolding path_is_sensitive
path_is_sensitive-append [] path h = ground (arith, sensitive_path-append [] path)
path_is_sensitive-append (c ∷ dir) path h = ground (arith, sensitive_path-append (c ∷ dir) path)
