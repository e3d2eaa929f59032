-- ===== src/Supervisor/Ids.antt =====
-- valid_id and valid_token of supervisor.c.
use phronesis.Base.{
  ℕ, Bool, true, false, ◌&&◌, ◌||◌, not, none, some, [], ◌∷◌, ltb, leb, ◌==◌, length,
}
use phronesis.Base.CString.{Bytes, CString, nonempty}
use phronesis.Supervisor.Types.{id_max}

abbrev pub id_char : ℕ → Bool
id_char c =
    leb b'a' c && leb c b'z'
    || leb b'A' c && leb c b'Z'
    || leb b'0' c && leb c b'9'
    || c == b'-'
    || c == b'_'

unfoldable pub id_chars : Bytes → Bool
id_chars [] = true
id_chars (c ∷ s) = id_char c && id_chars s

unfoldable pub valid_id : CString → Bool
unfolding id_chars
valid_id none = false
valid_id (some id) = nonempty id && ltb (length id) id_max && id_chars id

unfoldable pub token_chars : Bytes → Bool
token_chars [] = true
token_chars (c ∷ s) = not (leb c 0x20 || c == 0x7f) && token_chars s

unfoldable pub valid_token : Bytes → ℕ → Bool
unfolding token_chars
valid_token s maxlen = nonempty s && ltb (length s) maxlen && token_chars s
