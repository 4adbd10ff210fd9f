-- ===== src/Base/Or.antt =====
-- `|` of a shifted field and a field that fits below it, as a sum.
use mathlib.Core.Path.{◌≡◌, refl, ap}
use mathlib.Core.WellFounded
use native.Mathlib.Nat.{pow-suc}
use native.Mathlib.Omega.{arith}
use Prim.Native.Nat.{ℕ, zero, suc, ◌+◌, ◌*◌, ◌/◌, ◌%◌, ◌^◌, ◌<◌, max, bit_or, bit_or-bitwise}
use srs_control.Base.Order.{lt_wf}
use srs_control.Base.Xor.{bitwise-lowest}

-- The lowest digit of the result, and the others.
bit_or_parts : (x y : ℕ) → bit_or x y ≡ max (x % 2) (y % 2) + 2 * bit_or (x / 2) (y / 2)
bit_or_parts zero y = simp bit_or-bitwise (omega arith)
bit_or_parts (suc x) y = simp bit_or-bitwise (omega (arith, bitwise-lowest (λ t. t) max x y))

abbrev KeepsOperand : ℕ → Type 0
KeepsOperand x = bit_or x 0 ≡ x

bit_or_none : (x : ℕ) → KeepsOperand x
bit_or_none x = WellFounded.induction lt_wf {C = KeepsOperand} x halve
  where
    halve : (x : ℕ) → ((y : ℕ) → y < x → KeepsOperand y) → KeepsOperand x
    halve zero smaller = refl
    halve (suc x) smaller = omega (arith, smaller (suc x / 2) (omega arith), bit_or_parts (suc x) 0)

-- Each step takes the lowest digit of the lower field, over a zero of the upper one.
pub bit_or_fields : (k q r : ℕ) → r < 2 ^ k → bit_or (q * 2 ^ k) r ≡ q * 2 ^ k + r
bit_or_fields zero q r fits = ground (arith, bit_or_none q)
bit_or_fields (suc k) q r fits =
    let doubled : q * 2 ^ suc k ≡ q * 2 ^ k * 2 =
      omega (arith, ap (λ (t : ℕ). q * t) (pow-suc 2 k)) in
    let lower = bit_or_fields k q (r / 2) (omega (arith, pow-suc 2 k)) in
    ground (arith, doubled, lower, bit_or_parts (q * 2 ^ suc k) r)
