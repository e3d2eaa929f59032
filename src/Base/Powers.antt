-- ===== src/Base/Powers.antt =====
-- Powers of two, for the loops that double a capacity.
use Prim.Native.Nat.{ℕ, zero, suc, ◌*◌, ◌^◌, ◌≤◌}
use native.Mathlib.Nat.{mul_assoc}
use native.Mathlib.Omega.{arith}
use mathlib.Core.Path.{◌≡◌, ap, ◌∙◌, sym}

pub mul-pow_suc : (n k : ℕ) → n * 2 ^ suc k ≡ n * 2 * 2 ^ k
mul-pow_suc n k = ap (λ (m : ℕ). n * m) (ground arith) ∙ sym (mul_assoc n 2 (2 ^ k))

one_le-pow : (k : ℕ) → 1 ≤ 2 ^ k
one_le-pow zero = omega arith
one_le-pow (suc k) = omega (arith, one_le-pow k)

le-mul_pos : (a x : ℕ) → 1 ≤ x → a ≤ a * x
le-mul_pos a zero h = absurd (omega arith)
le-mul_pos a (suc y) h = omega arith

pub le-mul_pow : (a k : ℕ) → a ≤ a * 2 ^ k
le-mul_pow a k = le-mul_pos a (2 ^ k) (one_le-pow k)
