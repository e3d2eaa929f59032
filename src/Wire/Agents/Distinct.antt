-- ===== src/Wire/Agents/Distinct.antt =====
-- Two agents never share an id of the supervisor.
use phronesis.Base.{
  ℕ, zero, suc, ◌/◌, ◌%◌, ◌^◌, ◌<◌, ◌≡◌, ◌≢◌, refl, ap, sym, ◌∙◌, Bool, true, false, ◌&&◌, [], ◌∷◌,
  ◌++◌, arith, ◌==◌, length, length-append, Bool-cases, inl, inr,
}
use phronesis.Base.CString.{Bytes}
use phronesis.ActionLog.Escape.{hex_digit}
use phronesis.Wire.Agents.{AgentId, hex_digits, agent_id_to_hex}

parts_eq :
    (xs ys us vs : Bytes) → length xs ≡ length ys → xs ++ us ≡ ys ++ vs → (xs ≡ ys) × (us ≡ vs)
parts_eq [] [] us vs l e = (refl, e)
parts_eq [] (y ∷ ys) us vs l e = absurd (omega (arith, l))
parts_eq (x ∷ xs) [] us vs l e = absurd (omega (arith, l))
parts_eq (x ∷ xs) (y ∷ ys) us vs l e =
    let (p, q) = parts_eq xs ys us vs (omega (arith, l)) (ground (arith, e)) in
    (ground (arith, e, p), q)

hex_digit_eq : (d e : ℕ) → d < 16 → e < 16 → hex_digit d ≡ hex_digit e → d ≡ e
unfolding hex_digit
hex_digit_eq d e p q h = ground arith

length-hex_digits : (k n : ℕ) → length (hex_digits k n) ≡ k
unfolding hex_digits
length-hex_digits zero n = refl
length-hex_digits (suc k) n = omega (
  arith,
  length-hex_digits k (n / 16),
  length-append (hex_digits k (n / 16)) (hex_digit (n % 16) ∷ []),
)

-- k digits determine a number below 16 ^ k.
hex_digits_eq : (k n m : ℕ) → n < 16 ^ k → m < 16 ^ k → hex_digits k n ≡ hex_digits k m → n ≡ m
unfolding hex_digits
hex_digits_eq zero n m p q e = omega (arith, p, q)
hex_digits_eq (suc k) n m p q e =
    let (high, low) =
      parts_eq (hex_digits k (n / 16)) (hex_digits k (m / 16)) (hex_digit (n % 16) ∷ [])
        (hex_digit (m % 16) ∷ [])
        (omega (arith, length-hex_digits k (n / 16), length-hex_digits k (m / 16))) e in
    let h = hex_digits_eq k (n / 16) (m / 16) (omega (arith, p)) (omega (arith, q)) high in
    let d : hex_digit (n % 16) ≡ hex_digit (m % 16) = ground (arith, low) in
    let l = hex_digit_eq (n % 16) (m % 16) (omega arith) (omega arith) d in omega (arith, h, l)

all_digits : AgentId → Bytes
all_digits id = hex_digits 16 id.hi ++ hex_digits 16 id.lo

is_null : AgentId → Bool
is_null id = id.hi == 0 && id.lo == 0

length-all_digits : (id : AgentId) → length (all_digits id) ≡ 32
unfolding all_digits
length-all_digits id = omega (
  arith,
  length-append (hex_digits 16 id.hi) (hex_digits 16 id.lo),
  length-hex_digits 16 id.hi,
  length-hex_digits 16 id.lo,
)

to_hex_null : (id : AgentId) → is_null id ≡ true → agent_id_to_hex id ≡ []
unfolding agent_id_to_hex is_null
to_hex_null id e = rw (e, agent_id_to_hex) refl

to_hex_digits : (id : AgentId) → is_null id ≡ false → agent_id_to_hex id ≡ all_digits id
unfolding agent_id_to_hex is_null all_digits
to_hex_digits id e = rw (e, agent_id_to_hex) refl

null_eq : (a b : AgentId) → is_null a ≡ true → is_null b ≡ true → a ≡ b
unfolding is_null
null_eq a b p q = ground arith

-- Each half is a number of 64 bits.
abbrev pub IsWide : AgentId → Type 0
IsWide id = (id.hi < 2 ^ 64) × (id.lo < 2 ^ 64)

all_digits_eq : (a b : AgentId) → IsWide a → IsWide b → all_digits a ≡ all_digits b → a ≡ b
unfolding all_digits
all_digits_eq a b (p, p') (q, q') e =
    let (high, low) =
      parts_eq (hex_digits 16 a.hi) (hex_digits 16 b.hi) (hex_digits 16 a.lo) (hex_digits 16 b.lo)
        (omega (arith, length-hex_digits 16 a.hi, length-hex_digits 16 b.hi)) e in
    let h = hex_digits_eq 16 a.hi b.hi (omega (arith, p)) (omega (arith, q)) high in
    let l = hex_digits_eq 16 a.lo b.lo (omega (arith, p')) (omega (arith, q')) low in
    ground (arith, h, l)

not_null :
    (a b : AgentId)
    → is_null a ≡ true
    → is_null b ≡ false
    → agent_id_to_hex a ≡ agent_id_to_hex b
    → ⊥
not_null a b p q e =
    absurd (
      omega (arith, ap length (sym (to_hex_null a p) ∙ e ∙ to_hex_digits b q), length-all_digits b))

same_agent : (a b : AgentId) → IsWide a → IsWide b → agent_id_to_hex a ≡ agent_id_to_hex b → a ≡ b
same_agent a b p q e = elim (Bool-cases (is_null a)) [
  | inl n ↦ elim (Bool-cases (is_null b)) [
    | inl m ↦ null_eq a b n m
    | inr m ↦ absurd (not_null a b n m e)
  ]
  | inr n ↦ elim (Bool-cases (is_null b)) [
    | inl m ↦ absurd (not_null b a m n (sym e))
    | inr m ↦ all_digits_eq a b p q (sym (to_hex_digits a n) ∙ e ∙ to_hex_digits b m)
  ]
]

-- Different agents, the null agent among them, have different ids in the supervisor. The halves of an
-- agent's number have 64 bits.
pub agent_id_to_hex_distinct :
    (a b : AgentId) → IsWide a → IsWide b → a ≢ b → agent_id_to_hex a ≢ agent_id_to_hex b
agent_id_to_hex_distinct a b p q n e = n (same_agent a b p q e)
