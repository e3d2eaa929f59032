-- ===== src/ActionLog/Unescape.antt =====
-- A reader of the contents of JSON strings, independent of json_escape, and the round trip.
use phronesis.Base.{
  ℕ, zero, suc, ◌+◌, ◌-◌, ◌*◌, ◌<◌, ◌≡◌, refl, ◌∙◌, ap, true, false, ◌||◌, Option, none, some, [],
  ◌∷◌, ◌++◌, arith, ltb, ◌==◌, if◌then◌else◌,
}
use phronesis.Base.CString.{Bytes}
use phronesis.ActionLog.Escape.{
  json_escape, escaped, escaped_byte, unicode_escape, json_escape-bounded,
}

-- Where the reader stands: in plain text, behind a backslash, or with so many digits to come behind
-- the value of those read.
pub data Reading : Type 0 where
  text backslash : Reading
  unicode : ℕ → ℕ → Reading

abbrev hex_value : ℕ → ℕ
hex_value d = if ltb d 58 then d - 48 else d - 87

abbrev pub push : ℕ → Option Bytes → Option Bytes
push c none = none
push c (some s) = some (c ∷ s)

-- The string that a JSON string stands for; `none` if a quote or a control byte stands in it bare.
pub json_unescape : Reading → Bytes → Option Bytes
json_unescape text [] = some []
json_unescape text (c ∷ s) =
    let plain = push c (json_unescape text s) in
    let escape = json_unescape backslash s in
    if c == b'"' || ltb c 0x20 then none else if c == b'\\' then escape else plain
json_unescape backslash [] = none
json_unescape backslash (c ∷ s) =
    let plain = push c (json_unescape text s) in
    let digits = json_unescape (unicode 3 0) s in
    if c == b'u' then digits else if c == b'"' || c == b'\\' then plain else none
json_unescape (unicode k v) [] = none
json_unescape (unicode zero v) (c ∷ s) = push (v * 16 + hex_value c) (json_unescape text s)
json_unescape (unicode (suc k) v) (c ∷ s) = json_unescape (unicode k (v * 16 + hex_value c)) s

json_unescape-unicode :
    (c : ℕ) (r : Bytes)
    → c < 0x20
    → json_unescape text (unicode_escape c ++ r) ≡ push c (json_unescape text r)
unfolding json_unescape unicode_escape
json_unescape-unicode c r h = ap (λ n. push n (json_unescape text r)) (ground arith)

module _ (c : ℕ) (r : Bytes) where
  json_unescape-backslash :
      (c == b'"' || c == b'\\') ≡ true
      → json_unescape text (b'\\' ∷ c ∷ r) ≡ push c (json_unescape text r)
  unfolding json_unescape
  json_unescape-backslash h = rw h (ground arith)

  json_unescape-plain :
      (c == b'"' || c == b'\\') ≡ false
      → ltb c 0x20 ≡ false
      → json_unescape text (c ∷ r) ≡ push c (json_unescape text r)
  unfolding json_unescape
  json_unescape-plain h k = ground arith

json_unescape-byte :
    (c : ℕ) (r : Bytes) → json_unescape text (escaped_byte c ++ r) ≡ push c (json_unescape text r)
unfolding escaped_byte
json_unescape-byte c r =
    ground (arith, json_unescape-unicode c r, json_unescape-backslash c r, json_unescape-plain c r)

-- A JSON reader gets back the string that was escaped, whatever bytes it holds.
pub json_unescape-escaped : (s : Bytes) → json_unescape text (escaped s) ≡ some s
unfolding json_unescape escaped
json_unescape-escaped [] = refl
json_unescape-escaped (c ∷ s) =
    json_unescape-byte c (escaped s) ∙ ap (push c) (json_unescape-escaped s)

-- What json_escape stores is read back as the string that it was given.
pub json_unescape-json_escape :
    (s : Bytes) (n : ℕ) (out : Bytes) → json_escape s n ≡ some out → json_unescape text out ≡ some s
json_unescape-json_escape s n out h =
    ground (arith, json_escape-bounded s n, json_unescape-escaped s)
