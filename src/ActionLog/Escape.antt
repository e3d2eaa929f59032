-- ===== src/ActionLog/Escape.antt =====
-- json_escape of action_log.c.
use phronesis.Base.{
  ℕ, ◌+◌, ◌/◌, ◌%◌, ◌≡◌, ◌||◌, Option, none, some, [], ◌∷◌, ◌++◌, arith, ltb, leb, ◌==◌,
  if◌then◌else◌, length, length-append, append-nil, append_assoc,
}
use phronesis.Base.CString.{Bytes}

-- A digit of %x.
unfoldable pub hex_digit : ℕ → ℕ
hex_digit d = if ltb d 10 then 48 + d else 87 + d

-- printf("\\u%04x", c) for c < 0x20
unfoldable pub unicode_escape : ℕ → Bytes
unfolding hex_digit
unicode_escape c = b'\\' ∷ b'u' ∷ b'0' ∷ b'0' ∷ hex_digit (c / 16) ∷ hex_digit (c % 16) ∷ []

-- The loop, with `out` the bytes stored so far; `none` is the result -1.
unfoldable pub escape_onto : ℕ → Bytes → Bytes → Option Bytes
unfolding unicode_escape
escape_onto outlen out [] = if leb outlen (length out) then none else some out
escape_onto outlen out (c ∷ s) =
    let short = escape_onto outlen (out ++ b'\\' ∷ c ∷ []) s in
    let unicode = escape_onto outlen (out ++ unicode_escape c) s in
    let plain = escape_onto outlen (out ++ c ∷ []) s in
    if c == b'"' || c == b'\\'
    then (if leb outlen (length out + 2) then none else short)
    else if ltb c 0x20
    then (if leb outlen (length out + 6) then none else unicode)
    else (if leb outlen (length out + 1) then none else plain)

unfoldable pub json_escape : Bytes → ℕ → Option Bytes
unfolding escape_onto
json_escape s outlen = escape_onto outlen [] s

-- The escaped form of one byte, and of a string.
unfoldable pub escaped_byte : ℕ → Bytes
unfolding unicode_escape
escaped_byte c =
    if c == b'"' || c == b'\\'
    then b'\\' ∷ c ∷ []
    else if ltb c 0x20
    then unicode_escape c
    else c ∷ []

unfoldable pub escaped : Bytes → Bytes
escaped [] = []
escaped (c ∷ s) = escaped_byte c ++ escaped s

abbrev pub bounded : ℕ → Bytes → Option Bytes
bounded outlen s = if ltb (length s) outlen then some s else none

bounded_piece :
    (n : ℕ) (out piece rest : Bytes)
    → (if leb n (length out + length piece) then none else bounded n ((out ++ piece) ++ rest))
      ≡ bounded n (out ++ (piece ++ rest))
bounded_piece n out piece rest =
    rw append_assoc
      (ground (arith, length-append {0} out (piece ++ rest), length-append {0} piece rest))

escape_onto-bounded :
    (outlen : ℕ) (out s : Bytes) → escape_onto outlen out s ≡ bounded outlen (out ++ escaped s)
unfolding escape_onto escaped escaped_byte unicode_escape
escape_onto-bounded outlen out [] = rw append-nil (ground arith)
escape_onto-bounded outlen out (c ∷ s) = ground (
  arith,
  escape_onto-bounded outlen (out ++ b'\\' ∷ c ∷ []) s,
  escape_onto-bounded outlen (out ++ unicode_escape c) s,
  escape_onto-bounded outlen (out ++ c ∷ []) s,
  bounded_piece outlen out (b'\\' ∷ c ∷ []) (escaped s),
  bounded_piece outlen out (unicode_escape c) (escaped s),
  bounded_piece outlen out (c ∷ []) (escaped s),
)

-- json_escape stores the escaped string when it fits the buffer together with its NUL, and fails
-- exactly when it does not.
pub json_escape-bounded : (s : Bytes) (n : ℕ) → json_escape s n ≡ bounded n (escaped s)
unfolding json_escape
json_escape-bounded s n = escape_onto-bounded n [] s
