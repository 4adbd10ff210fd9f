-- ===== src/Utils/Gray.antt =====
-- `gray_to_binary` and `binary_to_gray` of backend/srs/utils/CommonFunctions.hpp. A word is a
-- number. The loop of `gray_to_binary` halves the code, so the code itself is fuel enough.
use mathlib.Core.WellFounded
use srs_control.Base.Order.{lt_wf}
use srs_control.Base.Xor.{
  bit_xor-half, bit_xor-zero, bit_xor_self, bit_xor_assoc, bit_xor-lt, zero-bit_xor,
}
use srs_control.Base.{
  ℕ, zero, suc, ◌/◌, ◌^◌, ◌<◌, ◌≤◌, bit_xor, ◌≡◌, refl, ap, ◌∙◌, sym, subst, arith, ltb, lt→ltb,
  if◌then◌else◌,
}

-- `bin ^ (bin >> 1)`.
unfoldable pub binary_to_gray : ℕ → ℕ
binary_to_gray bin_val = bit_xor bin_val (bin_val / 2)

-- `while (gray_val > 0) { gray_val >>= 1; bin_val ^= gray_val; }` with fuel.
gray_loop : (fuel gray_val bin_val : ℕ) → ℕ
gray_loop zero gray_val bin_val = bin_val
gray_loop (suc fuel) gray_val bin_val =
    let rest = gray_loop fuel (gray_val / 2) (bit_xor bin_val (gray_val / 2)) in
    if ltb 0 gray_val then rest else bin_val

unfoldable pub gray_to_binary : ℕ → ℕ
unfolding gray_loop
gray_to_binary gray_val = gray_loop gray_val gray_val gray_val

gray_loop-zero : (n b : ℕ) → gray_loop n 0 b ≡ b
unfolding gray_loop
gray_loop-zero zero b = refl
gray_loop-zero (suc n) b = refl

gray_loop-suc :
    (n g b : ℕ) → gray_loop (suc n) (suc g) b ≡ gray_loop n (suc g / 2) (bit_xor b (suc g / 2))
unfolding gray_loop
gray_loop-suc n g b = rw (lt→ltb 0 (suc g) (omega arith))

-- With fuel enough, more fuel changes nothing, and the loop adds to its accumulator what it makes
-- of 0.
gray_loop-acc : (n m g b : ℕ) → g ≤ n → g ≤ m → gray_loop n g b ≡ bit_xor b (gray_loop m g 0)
gray_loop-acc n m zero b p q =
    gray_loop-zero n b ∙ sym (bit_xor-zero b) ∙ ap (bit_xor b) (sym (gray_loop-zero m 0))
gray_loop-acc zero m (suc g) b p q = absurd (omega arith)
gray_loop-acc (suc n) zero (suc g) b p q = absurd (omega arith)
gray_loop-acc (suc n) (suc m) (suc g) b p q =
    gray_loop-suc n g b
    ∙ gray_loop-acc n m (suc g / 2) (bit_xor b (suc g / 2)) (omega arith) (omega arith)
    ∙ bit_xor_assoc b (suc g / 2) (gray_loop m (suc g / 2) 0)
    ∙ ap (bit_xor b) (
        sym (
          gray_loop-suc m g 0
          ∙ gray_loop-acc m m (suc g / 2) (bit_xor 0 (suc g / 2)) (omega arith) (omega arith)
          ∙ ap (λ t. bit_xor t (gray_loop m (suc g / 2) 0)) (zero-bit_xor (suc g / 2))))

-- The recursion that the loop unrolls.
gray_to_binary_step : (g : ℕ) → gray_to_binary g ≡ bit_xor g (gray_to_binary (g / 2))
unfolding gray_to_binary
gray_to_binary_step zero = refl
gray_to_binary_step (suc g) =
    gray_loop-suc g g (suc g)
    ∙ gray_loop-acc g g (suc g / 2) (bit_xor (suc g) (suc g / 2)) (omega arith) (omega arith)
    ∙ bit_xor_assoc (suc g) (suc g / 2) (gray_loop g (suc g / 2) 0)
    ∙ ap (bit_xor (suc g))
        (sym (gray_loop-acc (suc g / 2) g (suc g / 2) (suc g / 2) (omega arith) (omega arith)))

-- `a ^ (b ^ b)` and the like.
cancel : (a b c : ℕ) → bit_xor (bit_xor a b) (bit_xor b c) ≡ bit_xor a c
cancel a b c =
    bit_xor_assoc a b (bit_xor b c)
    ∙ ap (bit_xor a)
        (sym (bit_xor_assoc b b c) ∙ ap (λ t. bit_xor t c) (bit_xor_self b) ∙ zero-bit_xor c)

abbrev DecodesCode : ℕ → Type 0
DecodesCode x = gray_to_binary (binary_to_gray x) ≡ x

-- Decoding undoes encoding, at every width.
pub gray_to_binary-binary_to_gray : (x : ℕ) → gray_to_binary (binary_to_gray x) ≡ x
gray_to_binary-binary_to_gray x = WellFounded.induction lt_wf {C = DecodesCode} x step
  where
    step : (n : ℕ) → ((m : ℕ) → m < n → DecodesCode m) → DecodesCode n
    step zero ih = unfold gray_to_binary binary_to_gray in refl
    step (suc n) ih =
        unfold binary_to_gray in
        gray_to_binary_step (binary_to_gray (suc n))
        ∙ ap (λ t. bit_xor (binary_to_gray (suc n)) (gray_to_binary t))
            (bit_xor-half (suc n) (suc n / 2))
        ∙ ap (bit_xor (binary_to_gray (suc n))) (ih (suc n / 2) (omega arith))
        ∙ bit_xor_assoc (suc n) (suc n / 2) (suc n / 2)
        ∙ ap (bit_xor (suc n)) (bit_xor_self (suc n / 2))
        ∙ bit_xor-zero (suc n)

abbrev EncodesValue : ℕ → Type 0
EncodesValue g = binary_to_gray (gray_to_binary g) ≡ g

-- The upper digits of a decoded value are the decoded upper digits.
gray_to_binary-half : (g : ℕ) → EncodesValue (g / 2) → gray_to_binary g / 2 ≡ gray_to_binary (g / 2)
unfolding binary_to_gray
gray_to_binary-half g ih =
    ap (λ t. t / 2) (gray_to_binary_step g)
    ∙ bit_xor-half g (gray_to_binary (g / 2))
    ∙ ap (λ t. bit_xor t (gray_to_binary (g / 2) / 2)) (sym ih)
    ∙ bit_xor_assoc (gray_to_binary (g / 2)) _ _
    ∙ ap (bit_xor (gray_to_binary (g / 2))) (bit_xor_self (gray_to_binary (g / 2) / 2))
    ∙ bit_xor-zero (gray_to_binary (g / 2))

-- Encoding undoes decoding, at every width.
pub binary_to_gray-gray_to_binary : (g : ℕ) → binary_to_gray (gray_to_binary g) ≡ g
binary_to_gray-gray_to_binary g = WellFounded.induction lt_wf {C = EncodesValue} g step
  where
    step : (n : ℕ) → ((m : ℕ) → m < n → EncodesValue m) → EncodesValue n
    step zero ih = unfold gray_to_binary binary_to_gray in refl
    step (suc n) ih =
        unfold binary_to_gray in
        ap (bit_xor (gray_to_binary (suc n)))
          (gray_to_binary-half (suc n) (ih (suc n / 2) (omega arith)))
        ∙ ap (λ t. bit_xor t (gray_to_binary (suc n / 2))) (gray_to_binary_step (suc n))
        ∙ bit_xor_assoc (suc n) (gray_to_binary (suc n / 2)) (gray_to_binary (suc n / 2))
        ∙ ap (bit_xor (suc n)) (bit_xor_self (gray_to_binary (suc n / 2)))
        ∙ bit_xor-zero (suc n)

-- Neither direction needs more bits than its argument.
pub binary_to_gray-lt : (k x : ℕ) → x < 2 ^ k → binary_to_gray x < 2 ^ k
unfolding binary_to_gray
binary_to_gray-lt k x h = bit_xor-lt k x (x / 2) h (omega arith)

abbrev IsDecodedUnder : ℕ → ℕ → Type 0
IsDecodedUnder bound g = g < bound → gray_to_binary g < bound

pub gray_to_binary-lt : (k g : ℕ) → g < 2 ^ k → gray_to_binary g < 2 ^ k
gray_to_binary-lt k g h = WellFounded.induction lt_wf {C = IsDecodedUnder (2 ^ k)} g step h
  where
    step : (n : ℕ) → ((m : ℕ) → m < n → IsDecodedUnder (2 ^ k) m) → IsDecodedUnder (2 ^ k) n
    step zero ih h = unfold gray_to_binary in h
    step (suc n) ih h =
        subst (λ x. x < 2 ^ k) (sym (gray_to_binary_step (suc n)))
          (bit_xor-lt k (suc n) (gray_to_binary (suc n / 2)) h
            (ih (suc n / 2) (omega arith) (omega arith)))
