-- ===== src/ActionLog/Records/Lines.antt =====
-- Every record is one line of printable bytes.
use phronesis.Base.{
  ℕ, zero, suc, ◌+◌, ◌/◌, ◌%◌, ◌≡◌, refl, Bool, true, ◌&&◌, [], ◌∷◌, ◌++◌, append_assoc, arith, leb,
}
use phronesis.Base.CString.{Bytes, codes}
use phronesis.Base.Decimal.{print_ℕ, digits_within}
use phronesis.ActionLog.Escape.{escaped, escaped_byte, unicode_escape}
use phronesis.ActionLog.Records.{log_line}

-- No byte is a control byte: not a newline, a carriage return or a NUL.
unfoldable pub printable : Bytes → Bool
printable [] = true
printable (c ∷ s) = leb 0x20 c && printable s

pub printable-append : (a b : Bytes) → printable (a ++ b) ≡ (printable a && printable b)
unfolding printable
printable-append [] b = refl
printable-append (c ∷ a) b = ground (arith, printable-append a b)

printable-escaped_byte : (c : ℕ) → printable (escaped_byte c) ≡ true
unfolding printable escaped_byte unicode_escape
printable-escaped_byte c = ground arith

pub printable-escaped : (s : Bytes) → printable (escaped s) ≡ true
unfolding escaped
printable-escaped [] = unfold printable in refl
printable-escaped (c ∷ s) = ground (
  arith,
  printable-append (escaped_byte c) (escaped s),
  printable-escaped_byte c,
  printable-escaped s,
)

printable-digits : (fuel n : ℕ) → printable (digits_within fuel n) ≡ true
unfolding digits_within printable
printable-digits zero n = refl
printable-digits (suc fuel) n = ground (
  arith,
  printable-append (digits_within fuel (n / 10)) ((48 + n % 10) ∷ []),
  printable-digits fuel (n / 10),
)

pub printable-print_ℕ : (n : ℕ) → printable (print_ℕ n) ≡ true
unfolding print_ℕ
printable-print_ℕ n = printable-digits (suc n) n

-- The record without its newline.
abbrev pub log_body : ℕ → Bytes → Bytes → Bytes → Bytes
log_body now ea ek ed =
    codes "{\"ts\":"
    ++ (print_ℕ now
        ++ (codes ",\"agent\":\""
            ++ (ea
                ++ (codes "\",\"kind\":\""
                    ++ (ek ++ (codes "\",\"detail\":\"" ++ (ed ++ codes "\"}")))))))

pub log_line-log_body :
    (now : ℕ) (ea ek ed : Bytes) → log_line now ea ek ed ≡ log_body now ea ek ed ++ b'\n' ∷ []
unfolding log_line
log_line-log_body now ea ek ed = simp append_assoc

-- Whatever the agent, the kind and the detail hold, the record has no byte below 0x20 but the
-- newline that ends it.
pub printable-log_body :
    (now : ℕ) (agent kind detail : Bytes)
    → printable (log_body now (escaped agent) (escaped kind) (escaped detail)) ≡ true
printable-log_body now agent kind detail =
    simp (printable-append, printable-print_ℕ, printable-escaped) (unfold printable in refl)
