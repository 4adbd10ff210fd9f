-- ===== src/Base/Xor.antt =====
-- `^` on unsigned words: the native operation by its lowest digit, and from that its group laws
-- and its commutation with a right shift.
use Prim.Native.Nat.{
  ℕ, zero, suc, ◌+◌, ◌-◌, ◌*◌, ◌/◌, ◌%◌, ◌^◌, ◌≤◌, ◌<◌, bit_xor, bit_xor-bitwise, digits, bitwise,
  differ,
}
use mathlib.Core.Path.{◌≡◌, refl, ap, ◌∙◌}
use mathlib.Core.WellFounded
use native.Mathlib.Nat.{pow-suc, add-suc}
use native.Mathlib.Omega.{arith}
use srs_control.Base.Order.{lt_wf}

module _ (rest : ℕ → ℕ) (digit : ℕ → ℕ → ℕ) where
  -- Fuel for the first operand is enough for both: more of it changes nothing.
  digits_step :
      (fuel x y : ℕ) → x ≤ fuel → digits rest digit (suc fuel) x y ≡ digits rest digit fuel x y
  digits_step zero zero y p = refl
  digits_step zero (suc x) y p = absurd (omega arith)
  digits_step (suc fuel) zero y p = refl
  digits_step (suc fuel) (suc x) y p = rw (digits_step fuel (suc x / 2) (y / 2) (omega arith))

  digits_spare :
      (spare fuel x y : ℕ)
      → x ≤ fuel
      → digits rest digit (fuel + spare) x y ≡ digits rest digit fuel x y
  digits_spare zero fuel x y p = ap (λ n. digits rest digit n x y) (omega arith)
  digits_spare (suc spare) fuel x y p =
      ap (λ n. digits rest digit n x y) (add-suc fuel spare)
      ∙ digits_step (fuel + spare) x y (omega arith)
      ∙ digits_spare spare fuel x y p

  pub bitwise-lowest :
      (x y : ℕ)
      → bitwise rest digit (suc x) y
        ≡ bitwise rest digit (suc x / 2) (y / 2) * 2 + digit (suc x % 2) (y % 2)
  bitwise-lowest x y =
      let enough = digits_spare (x - suc x / 2) (suc x / 2) (suc x / 2) (y / 2) (omega arith) in
      let all : suc x / 2 + (x - suc x / 2) ≡ x = omega arith in
      omega (arith, enough, ap (λ n. digits rest digit n (suc x / 2) (y / 2)) all)

differ-eq : (x y : ℕ) → differ x y ≡ x - y + (y - x)
differ-eq zero y = omega arith
differ-eq (suc x) zero = omega arith
differ-eq (suc x) (suc y) = omega (arith, differ-eq x y)

-- One step of the recursion on binary digits.
pub bit_xor_step : (a b : ℕ) → bit_xor a b ≡ bit_xor (a / 2) (b / 2) * 2 + (a % 2 + b % 2) % 2
bit_xor_step zero b = simp bit_xor-bitwise (omega arith)
bit_xor_step (suc a) b =
    simp bit_xor-bitwise
      (omega (arith, bitwise-lowest (λ y. y) differ a b, differ-eq (suc a % 2) (b % 2)))

pub zero-bit_xor : (b : ℕ) → bit_xor 0 b ≡ b
zero-bit_xor b = simp bit_xor-bitwise

pub bit_xor-half : (a b : ℕ) → bit_xor a b / 2 ≡ bit_xor (a / 2) (b / 2)
bit_xor-half a b = omega (arith, bit_xor_step a b)

pub bit_xor-zero : (a : ℕ) → bit_xor a 0 ≡ a
bit_xor-zero a = WellFounded.induction lt_wf {C = λ n. bit_xor n 0 ≡ n} a step
  where
    step : (n : ℕ) → ((m : ℕ) → m < n → bit_xor m 0 ≡ m) → bit_xor n 0 ≡ n
    step zero ih = refl
    step (suc n) ih = omega (arith, bit_xor_step (suc n) 0, ih (suc n / 2) (omega arith))

pub bit_xor_self : (a : ℕ) → bit_xor a a ≡ 0
bit_xor_self a = WellFounded.induction lt_wf {C = λ n. bit_xor n n ≡ 0} a step
  where
    step : (n : ℕ) → ((m : ℕ) → m < n → bit_xor m m ≡ 0) → bit_xor n n ≡ 0
    step zero ih = refl
    step (suc n) ih = omega (arith, bit_xor_step (suc n) (suc n), ih (suc n / 2) (omega arith))

abbrev Associates : ℕ → Type 0
Associates n = (b c : ℕ) → bit_xor (bit_xor n b) c ≡ bit_xor n (bit_xor b c)

pub bit_xor_assoc : (a : ℕ) → Associates a
bit_xor_assoc a = WellFounded.induction lt_wf {C = Associates} a step
  where
    step : (n : ℕ) → ((m : ℕ) → m < n → Associates m) → Associates n
    step zero ih b c = simp zero-bit_xor refl
    step (suc n) ih b c = omega (
      arith,
      bit_xor_step (bit_xor (suc n) b) c,
      bit_xor_step (suc n) (bit_xor b c),
      bit_xor_step (suc n) b,
      bit_xor_step b c,
      ap (λ t. bit_xor t (c / 2)) (bit_xor-half (suc n) b),
      ap (bit_xor (suc n / 2)) (bit_xor-half b c),
      ih (suc n / 2) (omega arith) (b / 2) (c / 2),
    )

-- The value fits as many bits as the two operands.
pub bit_xor-lt : (k a b : ℕ) → a < 2 ^ k → b < 2 ^ k → bit_xor a b < 2 ^ k
bit_xor-lt zero a b p q = grind (arith, bit_xor_self 0)
bit_xor-lt (suc k) a b p q = omega (
  arith,
  pow-suc 2 k,
  bit_xor_step a b,
  bit_xor-lt k (a / 2) (b / 2) (omega (arith, pow-suc 2 k)) (omega (arith, pow-suc 2 k)),
)
