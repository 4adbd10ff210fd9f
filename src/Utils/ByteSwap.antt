-- ===== src/Utils/ByteSwap.antt =====
-- `byte_swap` of backend/srs/utils/CommonFunctions.hpp, with the `std::byteswap` of a
-- `std::uint64_t` that it calls.
use mathlib.Core.List.{reverse-cons, reverse-reverse}
use native.Mathlib.Nat.{mod-eq_of_lt}
use srs_control.Base.Digits.{
  le_bytes, from_le_bytes, length-le_bytes, le_bytes-AreBytes, from_le_bytes-lt,
  from_le_bytes-le_bytes, le_bytes-from_le_bytes, from_le_bytes-append-zero, reverse-AreBytes,
  le_bytes-scaled,
}
use srs_control.Base.{
  ℕ, ◌-◌, ◌*◌, ◌%◌, ◌^◌, ◌<◌, ◌≡◌, ap, subst, ◌∙◌, arith, [], ◌∷◌, ◌++◌, reverse, length-reverse,
}

-- `std::byteswap` on eight bytes.
byteswap : ℕ → ℕ
byteswap val = from_le_bytes (reverse (le_bytes 8 val))

unfoldable pub byte_swap : (bit_size bits : ℕ) → ℕ
unfolding byteswap
byte_swap bit_size bits = byteswap (bits * 2 ^ (64 - bit_size) % 2 ^ 64) % 2 ^ bit_size

shifted_bytes : (x : ℕ) → x < 2 ^ 48 → le_bytes 8 (x * 2 ^ 16 % 2 ^ 64) ≡ 0 ∷ 0 ∷ le_bytes 6 x
shifted_bytes x h =
    ap (le_bytes 8) (as_bytes x h) ∙ le_bytes-scaled 7 (x * 256) ∙ ap (◌∷◌ 0) (le_bytes-scaled 6 x)
  where
    as_bytes : (x : ℕ) → x < 2 ^ 48 → x * 2 ^ 16 % 2 ^ 64 ≡ x * 256 * 256
    as_bytes x h = omega arith

reversed-lt : (x : ℕ) → from_le_bytes (reverse (le_bytes 6 x)) < 2 ^ 48
reversed-lt x =
    subst (λ n. from_le_bytes (reverse (le_bytes 6 x)) < 256 ^ n)
      (length-reverse (le_bytes 6 x) ∙ length-le_bytes 6 x)
      (from_le_bytes-lt (reverse (le_bytes 6 x)) (reverse-AreBytes _ (le_bytes-AreBytes 6 x)))

-- On 48 bits, the swap is the number whose six bytes are read the other way round.
pub byte_swap-eq : (x : ℕ) → x < 2 ^ 48 → byte_swap 48 x ≡ from_le_bytes (reverse (le_bytes 6 x))
unfolding byte_swap
byte_swap-eq x h =
    rw
      (
        shifted_bytes x h,
        reverse-cons 0 (0 ∷ le_bytes 6 x),
        reverse-cons 0 (le_bytes 6 x),
        from_le_bytes-append-zero (reverse (le_bytes 6 x) ++ 0 ∷ []),
        from_le_bytes-append-zero (reverse (le_bytes 6 x)),
      )
      (mod-eq_of_lt (reversed-lt x))

reread : (x : ℕ) → le_bytes 6 (from_le_bytes (reverse (le_bytes 6 x))) ≡ reverse (le_bytes 6 x)
reread x =
    subst (λ n. le_bytes n (from_le_bytes (reverse (le_bytes 6 x))) ≡ reverse (le_bytes 6 x))
      (length-reverse (le_bytes 6 x) ∙ length-le_bytes 6 x)
      (le_bytes-from_le_bytes (reverse (le_bytes 6 x)) (reverse-AreBytes _ (le_bytes-AreBytes 6 x)))

-- Swapping twice gives the word back.
pub byte_swap_twice : (x : ℕ) → x < 2 ^ 48 → byte_swap 48 (byte_swap 48 x) ≡ x
byte_swap_twice x h =
    ap (byte_swap 48) (byte_swap-eq x h)
    ∙ byte_swap-eq (from_le_bytes (reverse (le_bytes 6 x))) (reversed-lt x)
    ∙ ap (λ bs. from_le_bytes (reverse bs)) (reread x)
    ∙ ap from_le_bytes (reverse-reverse (le_bytes 6 x))
    ∙ from_le_bytes-le_bytes 6 x h
