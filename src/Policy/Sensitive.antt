-- ===== src/Policy/Sensitive.antt =====
-- path_is_sensitive of policy.c: the paths of credential material.
pub mod Prefix
use phronesis.Base.{
  ℕ, Bool, true, false, ◌&&◌, ◌||◌, not, Option, none, some, List, [], ◌∷◌, ◌==◌, if◌then◌else◌,
}
use phronesis.Base.CString.{
  Bytes, CString, codes, is_set, or_empty, strcmp_eq, starts_with, strstr, strrchr,
}

-- base = strrchr(path, '/'); base = base ? base + 1 : path;
unfoldable pub base_name : Bytes → Bytes
base_name path = elim (strrchr path b'/') [ none ↦ path | some [] ↦ path | some (c ∷ base) ↦ base ]

unfoldable pub sensitive_base : Bytes → Bool
sensitive_base base =
    strcmp_eq base (codes ".env")
    || starts_with (codes ".env.") base
    || strcmp_eq base (codes ".netrc")
    || strcmp_eq base (codes ".npmrc")
    || strcmp_eq base (codes ".pypirc")
    || strcmp_eq base (codes "id_rsa")
    || strcmp_eq base (codes "id_ed25519")
    || strcmp_eq base (codes "id_ecdsa")
    || strcmp_eq base (codes "id_dsa")
    || strcmp_eq base (codes "credentials")
    || strcmp_eq base (codes "credentials.json")
    || strcmp_eq base (codes "service-account.json")
    || strcmp_eq base (codes "token")
    || strcmp_eq base (codes "secrets.yaml")
    || strcmp_eq base (codes "secrets.yml")
    || strcmp_eq base (codes "secrets.json")

unfoldable pub sensitive_component : Bytes → Bool
sensitive_component path =
    strstr path (codes "/.ssh/")
    || strstr path (codes "/.gnupg/")
    || strstr path (codes "/.aws/")
    || strstr path (codes "/.kube/")
    || strstr path (codes "/.docker/")
    || strstr path (codes "/.password-store/")
    || strstr path (codes "/.config/gcloud/")
    || strstr path (codes "/private_dot_")
    || strstr path (codes "/.vault/")

sensitive_suffix : Bytes → Bool
sensitive_suffix p =
    strcmp_eq p (codes ".pem")
    || strcmp_eq p (codes ".key")
    || strcmp_eq p (codes ".p12")
    || strcmp_eq p (codes ".pfx")

-- p = strrchr(path, '.'), and the tests on it
unfoldable pub sensitive_extension : Bytes → Bool
unfolding sensitive_suffix
sensitive_extension path = elim (strrchr path b'.') [ none ↦ false | some p ↦ sensitive_suffix p ]

unfoldable pub sensitive_path : Bytes → Bool
sensitive_path path =
    sensitive_base (base_name path) || sensitive_component path || sensitive_extension path

unfoldable pub path_is_sensitive : CString → Bool
path_is_sensitive path = if is_set path then sensitive_path (or_empty path) else false
