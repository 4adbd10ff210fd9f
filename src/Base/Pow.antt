-- ===== src/Base/Pow.antt =====
-- Powers: sums of exponents, and multiples under `%` and `/`.
use mathlib.Core.Path.{◌≡◌, ap, ◌∙◌}
use native.Mathlib.Nat.{
  pow-suc, pow-zero, one-le-pow, mod-eq_of_lt, div-add-mod, mod-lt, mul_assoc, add-zero, add-suc,
  add-mul-mod_self_left,
}
use native.Mathlib.Omega.{arith}
use Prim.Native.Nat.{ℕ, zero, suc, ◌+◌, ◌*◌, ◌/◌, ◌%◌, ◌^◌, ◌<◌}

pub pow-add : (n a b : ℕ) → n ^ (a + b) ≡ n ^ a * n ^ b
pow-add n a zero = rw (add-zero a, pow-zero n) (omega arith)
pow-add n a (suc b) =
    rw (add-suc a b, pow-suc n (a + b), pow-suc n b, pow-add n a b) (mul_assoc (n ^ a) (n ^ b) n)

pub two-pow-pos : (k : ℕ) → 0 < 2 ^ k
two-pow-pos k = one-le-pow k 2 (omega arith)

mul-lt : (a m k : ℕ) → a < m → 0 < k → a * k < m * k
mul-lt a m k p q = grind arith

split-mul : (x m k : ℕ) → x * k ≡ x % m * k + m * k * (x / m)
split-mul x m k = omega (arith, ap (λ (t : ℕ). t * k) (div-add-mod x m))

pub mul-mod-mul : (x m k : ℕ) → 0 < m → 0 < k → x * k % (m * k) ≡ x % m * k
mul-mod-mul x m k p q =
    ap (λ (t : ℕ). t % (m * k)) (split-mul x m k)
    ∙ add-mul-mod_self_left (x % m * k) (m * k) (x / m)
    ∙ mod-eq_of_lt (mul-lt (x % m) m k (mod-lt x p) q)
