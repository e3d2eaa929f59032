-- ===== src/Policy/Env.antt =====
-- The environment variables that gate the checks: phronesis_env_truthy and phronesis_policy_deny_all
-- of policy.c.
use phronesis.Base.{Bool, ◌||◌}
use phronesis.Base.CString.{Bytes, CString, codes, or_empty, strcmp_eq}

-- getenv
abbrev pub Env : Type 0
Env = Bytes → CString

truthy_value : Bytes → Bool
truthy_value v =
    strcmp_eq v (codes "1")
    || strcmp_eq v (codes "true")
    || strcmp_eq v (codes "yes")
    || strcmp_eq v (codes "TRUE")
    || strcmp_eq v (codes "YES")

-- An unset or an empty variable compares equal to no literal.
unfoldable pub env_truthy : Env → Bytes → Bool
unfolding truthy_value
env_truthy getenv name = truthy_value (or_empty (getenv name))

unfoldable pub policy_deny_all : Env → Bool
unfolding env_truthy
policy_deny_all getenv = env_truthy getenv (codes "PHRONESIS_DENY_ALL")
