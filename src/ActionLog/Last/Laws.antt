-- ===== src/ActionLog/Last/Laws.antt =====
-- Reading back the record that was appended last.
use phronesis.Base.{
  ℕ, ◌+◌, ◌≤◌, ◌≡◌, refl, ap, ◌∙◌, Bool, true, false, ◌||◌, [], ◌∷◌, ◌++◌, append_assoc, arith,
  ◌==◌, length, length-append,
}
use phronesis.Base.CString.{Bytes, nonempty}
use phronesis.ActionLog.Records.Lines.{printable}
use phronesis.ActionLog.Last.{until_nul, drop_eol, keep_line, read_lines, line_buffer}

-- The text is empty or ends with a newline.
unfoldable pub ends_line : Bytes → Bool
ends_line [] = true
ends_line (c ∷ []) = c == b'\n'
ends_line (c ∷ d ∷ s) = ends_line (d ∷ s)

-- Behind a complete line the reader starts afresh.
read_lines-append_cons :
    (c : ℕ) (a b last line : Bytes)
    → ends_line (c ∷ a) ≡ true
    → read_lines last line ((c ∷ a) ++ b) ≡ read_lines (read_lines last line (c ∷ a)) [] b
unfolding read_lines ends_line
read_lines-append_cons c [] b last line h = ground arith
read_lines-append_cons c (d ∷ a) b last line h = read_lines-append_cons d a b _ _ h

read_lines-append :
    (a b last : Bytes)
    → ends_line a ≡ true
    → read_lines last [] (a ++ b) ≡ read_lines (read_lines last [] a) [] b
unfolding read_lines
read_lines-append [] b last h = refl
read_lines-append (c ∷ a) b last h = read_lines-append_cons c a b last [] h

read_lines-more :
    (last line s : Bytes) (c : ℕ)
    → (c == b'\n' || length (line ++ c ∷ []) + 1 == line_buffer) ≡ false
    → read_lines last line (c ∷ s) ≡ read_lines last (line ++ c ∷ []) s
unfolding read_lines
read_lines-more last line s c h = ground arith

read_lines-newline :
    (last line : Bytes) → read_lines last line (b'\n' ∷ []) ≡ keep_line last (line ++ b'\n' ∷ [])
unfolding read_lines
read_lines-newline last line = refl

-- A short printable line is read whole.
read_lines-line :
    (line s last : Bytes)
    → printable s ≡ true
    → length line + length s + 2 ≤ line_buffer
    → read_lines last line (s ++ b'\n' ∷ []) ≡ keep_line last (line ++ (s ++ b'\n' ∷ []))
unfolding printable
read_lines-line line [] last h k = read_lines-newline last line
read_lines-line line (c ∷ s) last h k =
    read_lines-more last line (s ++ b'\n' ∷ []) c (ground (arith, length-append {0} line (c ∷ [])))
    ∙ read_lines-line (line ++ c ∷ []) s last (ground arith)
        (omega (arith, length-append {0} line (c ∷ [])))
    ∙ ap (keep_line last) (append_assoc line (c ∷ []) (s ++ b'\n' ∷ []))

until_nul-line : (s : Bytes) → printable s ≡ true → until_nul (s ++ b'\n' ∷ []) ≡ s ++ b'\n' ∷ []
unfolding until_nul printable
until_nul-line [] h = refl
until_nul-line (c ∷ s) h = ground (arith, until_nul-line s)

drop_eol-line : (s : Bytes) → printable s ≡ true → drop_eol (s ++ b'\n' ∷ []) ≡ s
unfolding drop_eol printable
drop_eol-line [] h = refl
drop_eol-line (c ∷ []) h = ground arith
drop_eol-line (c ∷ d ∷ s) h = ground (arith, drop_eol-line (d ∷ s))

keep_line-line :
    (last s : Bytes) → printable s ≡ true → nonempty s ≡ true → keep_line last (s ++ b'\n' ∷ []) ≡ s
unfolding keep_line
keep_line-line last s h k = rw (until_nul-line s h, drop_eol-line s h, k)

-- Behind complete lines, a printable line that fits the buffer with its newline is the last one.
pub read_lines_last :
    (old s : Bytes)
    → ends_line old ≡ true
    → printable s ≡ true
    → nonempty s ≡ true
    → length s + 2 ≤ line_buffer
    → read_lines [] [] (old ++ (s ++ b'\n' ∷ [])) ≡ s
read_lines_last old s e h k l =
    read_lines-append old (s ++ b'\n' ∷ []) [] e
    ∙ read_lines-line [] s _ h (omega arith)
    ∙ keep_line-line _ s h k

ends_line_self : (a : Bytes) → ends_line (a ++ b'\n' ∷ []) ≡ true
unfolding ends_line
ends_line_self [] = refl
ends_line_self (c ∷ []) = refl
ends_line_self (c ∷ d ∷ a) = ends_line_self (d ∷ a)

-- The log ends with a complete line again.
pub ends_line-append : (old s : Bytes) → ends_line (old ++ (s ++ b'\n' ∷ [])) ≡ true
ends_line-append old s = rw (← append_assoc) (ends_line_self (old ++ s))
