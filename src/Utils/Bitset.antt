-- ===== src/Utils/Bitset.antt =====
-- `subset`, `merge_bits`, `get_low_bits` and `get_high_bits` of
-- backend/srs/utils/CommonFunctions.hpp. A `std::bitset<n>` is a number below `2 ^ n`: a left shift
-- drops what leaves the width, and a constructor drops what the width does not hold.
use native.Mathlib.Nat.{
  mul-div_cancel, mod-eq_of_lt, mod-mod, mod-lt, div-add-mod, le_trans, div-lt_iff_lt-mul,
  pow-le-pow_right,
}
use srs_control.Base.Or.{bit_or_fields}
use srs_control.Base.Pow.{pow-add, two-pow-pos, mul-mod-mul}
use srs_control.Base.{ℕ, ◌+◌, ◌-◌, ◌*◌, ◌/◌, ◌%◌, ◌^◌, ◌<◌, ◌≤◌, bit_or, ◌≡◌, ap, ◌∙◌, arith}

-- `std::bitset<width>{ value }`, `bits << n` and `bits >> n`.
abbrev pub bitset : (width value : ℕ) → ℕ
bitset width value = value % 2 ^ width

abbrev pub shift_left : (width bits n : ℕ) → ℕ
shift_left width bits n = bits * 2 ^ n % 2 ^ width

abbrev pub shift_right : (bits n : ℕ) → ℕ
shift_right bits n = bits / 2 ^ n

unfoldable pub subset : (bit_size max min bits : ℕ) → ℕ
subset bit_size max min bits =
    let ignore_high = bit_size - max in
    bitset (max - min) (shift_right (shift_left bit_size bits ignore_high) (ignore_high + min))

unfoldable pub merge_bits : (high_size low_size high_bits low_bits : ℕ) → ℕ
merge_bits high_size low_size high_bits low_bits =
    let size = high_size + low_size in
    bitset size (bit_or (shift_left size (bitset size high_bits) low_size) (bitset size low_bits))

unfoldable pub get_low_bits : (low_size total_size bits : ℕ) → ℕ
get_low_bits low_size total_size bits =
    let high_size = total_size - low_size in
    bitset low_size (shift_right (shift_left total_size bits high_size) high_size)

unfoldable pub get_high_bits : (high_size total_size bits : ℕ) → ℕ
get_high_bits high_size total_size bits =
    let low_size = total_size - high_size in bitset high_size (shift_right bits low_size)

-- Shifting left within a width and back drops the upper bits.
shift_round : (l h bits : ℕ) → bits * 2 ^ h % 2 ^ (l + h) / 2 ^ h ≡ bits % 2 ^ l
shift_round l h bits =
    ap (λ (t : ℕ). bits * 2 ^ h % t / 2 ^ h) (pow-add 2 l h)
    ∙ ap (λ (t : ℕ). t / 2 ^ h) (mul-mod-mul bits (2 ^ l) (2 ^ h) (two-pow-pos l) (two-pow-pos h))
    ∙ mul-div_cancel (bits % 2 ^ l) (two-pow-pos h)

shift_size : (l h : ℕ) → l + h - l ≡ h
shift_size l h = omega arith

upper-lt : (h l bits : ℕ) → bits < 2 ^ (h + l) → bits / 2 ^ l < 2 ^ h
upper-lt h l bits fits = (div-lt_iff_lt-mul (two-pow-pos l)).1 (rw (pow-add 2 h l) at fits)

fields-lt : (h l high low : ℕ) → high < 2 ^ h → low < 2 ^ l → high * 2 ^ l + low < 2 ^ (h + l)
fields-lt h l high low p q = rw (pow-add 2 h l) (index-lt high (2 ^ h) low (2 ^ l) p q)
  where
    index-lt : (r m c w : ℕ) → r < m → c < w → r * w + c < m * w
    index-lt r m c w p q = grind arith

pub get_low_bits-eq : (l h bits : ℕ) → get_low_bits l (l + h) bits ≡ bits % 2 ^ l
unfolding get_low_bits
get_low_bits-eq l h bits = rw (shift_size l h, shift_round l h bits) (mod-mod bits (2 ^ l))

pub get_high_bits-eq :
    (h l bits : ℕ) → bits < 2 ^ (h + l) → get_high_bits h (h + l) bits ≡ bits / 2 ^ l
unfolding get_high_bits
get_high_bits-eq h l bits fits = rw (shift_size h l) (mod-eq_of_lt (upper-lt h l bits fits))

-- Joining two fields is their sum, the upper one scaled.
pub merge_bits-eq :
    (h l high low : ℕ) → high < 2 ^ h → low < 2 ^ l → merge_bits h l high low ≡ high * 2 ^ l + low
unfolding merge_bits
merge_bits-eq h l high low p q =
    rw
      (
        mod-eq_of_lt (le_trans p high_le),
        mod-eq_of_lt (le_trans q low_le),
        mod-eq_of_lt scaled-lt,
        bit_or_fields l high low q,
      )
      (mod-eq_of_lt (fields-lt h l high low p q))
  where
    scaled-lt : high * 2 ^ l < 2 ^ (h + l)
    scaled-lt = omega (arith, fields-lt h l high low p q)

    high_le : 2 ^ h ≤ 2 ^ (h + l)
    high_le = pow-le-pow_right (omega arith) (omega arith)

    low_le : 2 ^ l ≤ 2 ^ (h + l)
    low_le = pow-le-pow_right (omega arith) (omega arith)

-- The two halves of a word, joined again, are the word.
pub merge_bits-get_bits :
    (h l bits : ℕ)
    → bits < 2 ^ (h + l)
    → merge_bits h l (get_high_bits h (h + l) bits) (get_low_bits l (l + h) bits) ≡ bits
merge_bits-get_bits h l bits fits =
    rw
      (
        get_high_bits-eq h l bits fits,
        get_low_bits-eq l h bits,
        merge_bits-eq h l (bits / 2 ^ l) (bits % 2 ^ l) (upper-lt h l bits fits)
            (mod-lt bits (two-pow-pos l)),
      )
      (omega (arith, div-add-mod bits (2 ^ l)))
