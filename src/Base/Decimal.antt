-- ===== src/Base/Decimal.antt =====
-- `%d` of printf and of scanf.
use Prim.Native.Nat.{ℕ, zero, suc, ◌+◌, ◌-◌, ◌*◌, ◌/◌, ◌%◌, ◌<◌}
use mathlib.Core.Path.{◌≡◌, refl, ap, ◌∙◌}
use mathlib.Core.Bool.{Bool, true, false, ◌&&◌}
use mathlib.Core.List.{[], ◌∷◌, ◌++◌, append_assoc}
use native.Mathlib.Omega.{arith}
use mathlib.Core.Logic.{inl, inr}
use phronesis.Base.Tests.{Bool-cases, ltb, leb, if◌then◌else◌}
use phronesis.Base.Int.{ℤ, pos, negsuc}
use phronesis.Base.CString.{Bytes}

-- The digits of n, with fuel above n.
unfoldable pub digits_within : ℕ → ℕ → Bytes
digits_within zero n = []
digits_within (suc fuel) n =
    let higher = digits_within fuel (n / 10) ++ (48 + n % 10) ∷ [] in
    if ltb n 10 then (48 + n) ∷ [] else higher

unfoldable pub print_ℕ : ℕ → Bytes
unfolding digits_within
print_ℕ n = digits_within (suc n) n

-- printf("%d")
unfoldable pub print_ℤ : ℤ → Bytes
unfolding print_ℕ
print_ℤ (pos n) = print_ℕ n
print_ℤ (negsuc n) = b'-' ∷ print_ℕ (suc n)

abbrev pub is_digit : ℕ → Bool
is_digit c = leb b'0' c && leb c b'9'

-- Reads digits behind the value read so far, up to the first byte that is none.
unfoldable pub scan_digits : ℕ → Bytes → ℕ × Bytes
scan_digits n [] = (n, [])
scan_digits n (c ∷ s) = if is_digit c then scan_digits (n * 10 + (c - 48)) s else (n, c ∷ s)

abbrev pub starts_digit : Bytes → Bool
starts_digit [] = false
starts_digit (c ∷ s) = is_digit c

scan_digits_cons :
    (m d : ℕ) (rest : Bytes)
    → d < 10
    → scan_digits m ((48 + d) ∷ rest) ≡ scan_digits (m * 10 + d) rest
unfolding scan_digits
scan_digits_cons m d rest h = ground arith

pub scan_digits-digits :
    (fuel n : ℕ) (rest : Bytes)
    → n < fuel
    → scan_digits 0 (digits_within fuel n ++ rest) ≡ scan_digits n rest
unfolding digits_within
scan_digits-digits zero n rest h = absurd (omega arith)
scan_digits-digits (suc fuel) n rest h = elim (Bool-cases (ltb n 10)) [
  | inl low ↦
      rw low (scan_digits_cons 0 n rest (ground arith) ∙ ap (λ m. scan_digits m rest) (omega arith))
  | inr high ↦ rw high (
      ap (scan_digits 0) (append_assoc (digits_within fuel (n / 10)) _ rest)
      ∙ scan_digits-digits fuel (n / 10) ((48 + n % 10) ∷ rest) (ground arith)
      ∙ scan_digits_cons (n / 10) (n % 10) rest (omega arith)
      ∙ ap (λ m. scan_digits m rest) (omega arith))
]

pub starts_digit-digits :
    (fuel n : ℕ) (rest : Bytes) → n < fuel → starts_digit (digits_within fuel n ++ rest) ≡ true
unfolding digits_within
starts_digit-digits zero n rest h = absurd (omega arith)
starts_digit-digits (suc fuel) n rest h = elim (Bool-cases (ltb n 10)) [
  | inl low ↦ rw low (ground arith)
  | inr high ↦ rw high (
      ap starts_digit (append_assoc (digits_within fuel (n / 10)) _ rest)
      ∙ starts_digit-digits fuel (n / 10) ((48 + n % 10) ∷ rest) (ground arith))
]

pub scan_digits-print_ℕ :
    (n : ℕ) (rest : Bytes)
    → starts_digit rest ≡ false
    → (scan_digits 0 (print_ℕ n ++ rest) ≡ (n, rest)) × (starts_digit (print_ℕ n ++ rest) ≡ true)
unfolding print_ℕ
scan_digits-print_ℕ n rest h = (
  scan_digits-digits (suc n) n rest (omega arith) ∙ stop rest h,
  starts_digit-digits (suc n) n rest (omega arith),
)
  where
    stop : (s : Bytes) → starts_digit s ≡ false → scan_digits n s ≡ (n, s)
    stop [] h = unfold scan_digits in refl
    stop (c ∷ s) h = unfold scan_digits in (rw h)
