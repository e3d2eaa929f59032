-- ===== src/Policy/Script.antt =====
-- phronesis_resolve_script and phronesis_map_admit_kind of policy.c.
use phronesis.Base.{
  ℕ, ◌+◌, ◌≡◌, ◌≤◌, ◌<◌, true, false, ◌||◌, not, Option, none, some, [], ◌∷◌, ◌++◌, ltb, ◌==◌,
  if◌then◌else◌, Bool-cases, inl, inr, sym, ◌∙◌, refl, length, arith, length-append, append_assoc,
}
use phronesis.Base.CString.{Bytes, CString, codes, is_set, or_empty, strcmp_eq}
use phronesis.Path.Lexical.{head_is, trim_slashes}

-- `none` is the result -1; `some out` is 0 and the string stored in out, a buffer of out_n bytes.
unfoldable pub resolve_script : CString → CString → ℕ → Option Bytes
resolve_script cwd script out_n =
    if not (is_set script) || out_n == 0
    then none
    else if head_is b'/' (or_empty script)
    then (if ltb out_n (length (or_empty script) + 1) then none else some (or_empty script))
    else if not (head_is b'/' (or_empty cwd))
    then none
    else (let cwd' = trim_slashes (or_empty cwd) in
        if ltb out_n (length cwd' + 1 + length (or_empty script) + 1)
        then none
        else some (cwd' ++ b'/' ∷ or_empty script))

-- The tool and the action of an admit kind, or -1.
unfoldable pub map_admit_kind : CString → Option (Bytes × Bytes)
map_admit_kind none = none
map_admit_kind (some kind) =
    if strcmp_eq kind (codes "seat")
    then some (codes "seat", codes "publish_run")
    else if strcmp_eq kind [] || strcmp_eq kind (codes "model") || strcmp_eq kind (codes "agent")
    then some (codes "model", codes "start")
    else none

head_append :
    (dir script : Bytes)
    → head_is b'/' dir ≡ true
    → head_is b'/' (trim_slashes dir ++ b'/' ∷ script) ≡ true
unfolding head_is trim_slashes
head_append [] script h = refl
head_append (c ∷ dir) script h = h

-- The resolved path is absolute, ends in the script, and fits the buffer with its NUL.
pub resolve_script_lem :
    (cwd script : CString) (out_n : ℕ) (out : Bytes)
    → resolve_script cwd script out_n ≡ some out
    → (head_is b'/' out ≡ true)
      × (length out < out_n)
      × ((d : Bytes) × (out ≡ d ++ or_empty script))
unfolding resolve_script
resolve_script_lem cwd script out_n out h = elim (Bool-cases (head_is b'/' (or_empty script))) [
  | inl e ↦ (ground arith, ground arith, ([], ground arith))
  | inr e ↦
      let dir = trim_slashes (or_empty cwd) in
      let found : out ≡ dir ++ b'/' ∷ or_empty script = ground arith in
      (
        rw found (head_append (or_empty cwd) (or_empty script) (ground arith)),
        rw found (omega (arith, length-append dir (b'/' ∷ or_empty script), room e)),
        (dir ++ b'/' ∷ [], found ∙ sym (append_assoc dir (b'/' ∷ []) (or_empty script))),
      )
]
  where
    room :
        head_is b'/' (or_empty script) ≡ false
        → length (trim_slashes (or_empty cwd)) + 1 + length (or_empty script) + 1 ≤ out_n
    room e = ground arith
