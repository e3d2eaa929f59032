-- ===== src/Supervisor/SlotFile/RoundTrip.antt =====
-- A slot that is written is read back.
use phronesis.Base.{
  ℕ, zero, suc, ◌≤◌, ◌≡◌, refl, Bool, true, false, ◌&&◌, not, Option, some, [], ◌∷◌, ◌++◌, arith,
  length,
}
use phronesis.Base.Int.{ℤ, pos, negsuc}
use phronesis.Base.CString.{Bytes, codes, nonempty, strcmp_eq}
use phronesis.Base.Decimal.{print_ℤ, print_ℕ, starts_digit, scan_digits-print_ℕ}
use phronesis.Supervisor.Types.{Slot, int_of_state, state_of_int, mode_max, path_max}
use phronesis.Supervisor.Ids.{valid_id, id_chars, valid_token, token_chars}
use phronesis.Supervisor.SlotFile.{
  slot_line, is_space, skip_spaces, word, scan_word, scan_unsigned, minus, scan_signed, scan_int,
  or_dash, un_dash, parse_slot, ◌>>=◌,
}

-- No byte is a space.
dense : Bytes → Bool
dense [] = true
dense (c ∷ s) = not (is_space c) && dense s

dense_of_id : (s : Bytes) → id_chars s ≡ true → dense s ≡ true
unfolding dense id_chars
dense_of_id [] h = refl
dense_of_id (c ∷ s) h = ground (arith, dense_of_id s)

dense_of_token : (s : Bytes) → token_chars s ≡ true → dense s ≡ true
unfolding dense token_chars
dense_of_token [] h = refl
dense_of_token (c ∷ s) h = ground (arith, dense_of_token s)

word-dense :
    (n : ℕ) (t : Bytes) (c : ℕ) (r : Bytes)
    → dense t ≡ true
    → length t ≤ n
    → is_space c ≡ true
    → word n (t ++ c ∷ r) ≡ (t, c ∷ r)
unfolding word dense
word-dense zero [] c r h k e = refl
word-dense zero (d ∷ t) c r h k e = absurd (omega arith)
word-dense (suc n) [] c r h k e = ground arith
word-dense (suc n) (d ∷ t) c r h k e = ground (arith, word-dense n t c r)

skip_spaces-dense :
    (t r : Bytes) → dense t ≡ true → nonempty t ≡ true → skip_spaces (t ++ r) ≡ t ++ r
unfolding skip_spaces dense
skip_spaces-dense [] r h k = ground arith
skip_spaces-dense (c ∷ t) r h k = ground arith

skip_spaces_blank : (s : Bytes) → skip_spaces (b' ' ∷ s) ≡ skip_spaces s
unfolding skip_spaces
skip_spaces_blank s = refl

module _ (n : ℕ) (t : Bytes) (c : ℕ) (r : Bytes) where
  scan_word-dense :
      dense t ≡ true
      → nonempty t ≡ true
      → length t ≤ n
      → is_space c ≡ true
      → scan_word n (t ++ c ∷ r) ≡ some (t, c ∷ r)
  unfolding scan_word
  scan_word-dense h k l e = rw (skip_spaces-dense t (c ∷ r) h k, word-dense n t c r h l e, k)

  scan_word-blank :
      dense t ≡ true
      → nonempty t ≡ true
      → length t ≤ n
      → is_space c ≡ true
      → scan_word n (b' ' ∷ (t ++ c ∷ r)) ≡ some (t, c ∷ r)
  unfolding scan_word
  scan_word-blank h k l e =
      rw (skip_spaces_blank, skip_spaces-dense t (c ∷ r) h k, word-dense n t c r h l e, k)

scan_signed-digit : (s : Bytes) → starts_digit s ≡ true → scan_signed s ≡ scan_unsigned pos s
unfolding scan_signed
scan_signed-digit [] h = ground arith
scan_signed-digit (c ∷ s) h = ground arith

skip_spaces-digit : (s : Bytes) → starts_digit s ≡ true → skip_spaces s ≡ s
unfolding skip_spaces
skip_spaces-digit [] h = ground arith
skip_spaces-digit (c ∷ s) h = ground arith

scan_unsigned-print_ℕ :
    (sign : ℕ → ℤ) (n : ℕ) (rest : Bytes)
    → starts_digit rest ≡ false
    → scan_unsigned sign (print_ℕ n ++ rest) ≡ some (sign n, rest)
unfolding scan_unsigned
scan_unsigned-print_ℕ sign n rest h = let (e, d) = scan_digits-print_ℕ n rest h in rw (e, d)

scan_int-minus :
    (s : Bytes) (r : Option (ℤ × Bytes))
    → scan_unsigned minus s ≡ r
    → scan_int (b' ' ∷ b'-' ∷ s) ≡ r
unfolding scan_int scan_signed skip_spaces
scan_int-minus s r h = h

-- What "%d" prints, "%d" reads.
pub scan_int-print_ℤ :
    (z : ℤ) (rest : Bytes)
    → starts_digit rest ≡ false
    → scan_int (b' ' ∷ (print_ℤ z ++ rest)) ≡ some (z, rest)
unfolding scan_int print_ℤ
scan_int-print_ℤ (pos n) rest h =
    let (e, d) = scan_digits-print_ℕ n rest h in
    rw
      (
        skip_spaces_blank,
        skip_spaces-digit (print_ℕ n ++ rest) d,
        scan_signed-digit (print_ℕ n ++ rest) d,
      )
      (scan_unsigned-print_ℕ pos n rest h)
scan_int-print_ℤ (negsuc n) rest h =
    scan_int-minus (print_ℕ (suc n) ++ rest) _ (scan_unsigned-print_ℕ minus (suc n) rest h)

module _ (s : Bytes) (h : valid_id (some s) ≡ true) where
  id_dense : dense s ≡ true
  unfolding valid_id
  id_dense = dense_of_id s (ground arith)

  id_nonempty : nonempty s ≡ true
  unfolding valid_id
  id_nonempty = ground arith

  id_short : length s ≤ 63
  unfolding valid_id
  id_short = ground arith

-- A field that may be empty: it is written as "-", which it must not be itself.
pub data IsField (n : ℕ) : Bytes → Type 0 where
  unset : IsField n []
  token : {s : Bytes} → valid_token s n ≡ true → strcmp_eq s (codes "-") ≡ false → IsField n s

-- What un_dash makes of the word that a field is written as.
module _ (n : ℕ) (c : ℕ) (r : Bytes) where
  scan_field :
      (s : Bytes)
      → 1 ≤ n
      → is_space c ≡ true
      → IsField (suc n) s
      → (t : Bytes) × (scan_word n (b' ' ∷ (or_dash s ++ c ∷ r)) ≡ some (t, c ∷ r))
        × (un_dash t ≡ s)
  unfolding dense strcmp_eq
  scan_field [] h e f = (codes "-", scan_word-blank n (codes "-") c r refl refl h e, refl)
  scan_field (d ∷ s) h e (token v m) = (
    d ∷ s,
    scan_word-blank n (d ∷ s) c r (dense_of_token (d ∷ s) (chars v)) refl (short v) e,
    marked m,
  )
    where
      chars : valid_token (d ∷ s) (suc n) ≡ true → token_chars (d ∷ s) ≡ true
      chars v = unfold valid_token in ground arith

      short : valid_token (d ∷ s) (suc n) ≡ true → length (d ∷ s) ≤ n
      short v = unfold valid_token in ground arith

      marked : strcmp_eq (d ∷ s) (codes "-") ≡ false → un_dash (d ∷ s) ≡ d ∷ s
      marked m = rw m

-- What a slot's file can hold: a valid id, fields that are empty or tokens, and a state that is a
-- value of its enum.
pub record IsPersistent (a : Slot) : Type 0 where
  pub id_valid : valid_id (some a.id) ≡ true
  pub state_known : state_of_int (int_of_state a.state) ≡ a.state
  pub mode_field : IsField mode_max a.mode
  pub workspace_field : IsField path_max a.workspace

-- The line that write_slot writes for a slot that its file can hold (a valid id, a known state,
-- and a mode and a workspace that are empty or tokens other than "-") reads back as that slot,
-- in use, but for its control group, which is not written.
pub parse_slot-slot_line :
    (a : Slot)
    → IsPersistent a
    → parse_slot (slot_line a) ≡ some (record a { in_use = true; cgroup_path = [] })
unfolding parse_slot slot_line ◌>>=◌
parse_slot-slot_line a h =
    let (ws, ws_scan, ws_is) =
      scan_field 511 b'\n' [] a.workspace (omega arith) refl h.workspace_field in
    let (m, m_scan, m_is) =
      scan_field 31 b' ' (or_dash a.workspace ++ b'\n' ∷ []) a.mode (omega arith) refl
        h.mode_field in
    rw (
      scan_word-dense 63 a.id b' ' _ (id_dense a.id h.id_valid) (id_nonempty a.id h.id_valid)
          (id_short a.id h.id_valid) refl,
      scan_int-print_ℤ (int_of_state a.state) _ refl,
      scan_int-print_ℤ a.pid _ refl,
      scan_int-print_ℤ a.pgid _ refl,
      scan_int-print_ℤ a.exit_status _ refl,
      m_scan,
      ws_scan,
      m_is,
      ws_is,
      h.state_known,
    )
