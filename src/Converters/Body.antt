-- ===== src/Converters/Body.antt =====
-- StructDeserializer.cpp: the elements that it reads of any bytes.
use mathlib.Core.List.{reverse-reverse}
use srs_control.Base.Digits.{
  AreBytes, take-AreBytes, drop-AreBytes, reverse-AreBytes, le_bytes, from_le_bytes,
  from_le_bytes-lt, le_bytes-from_le_bytes,
}
use srs_control.Base.{
  ℕ, zero, suc, ◌*◌, ◌^◌, ◌<◌, ◌≤◌, ◌≡◌, refl, ap, ap₂, ◌∙◌, sym, subst, List, [], ◌∷◌, ◌++◌, some,
  arith, All, reverse, length-reverse, length, length-take, length-drop, take, drop,
  take-append-drop,
}
use srs_control.Converters.Header.{take-add}
use srs_control.Converters.StructDeserializer.{get_elements, byte_reverse_data_sq}
use srs_control.Converters.Wire.{body_bytes, element_bytes}
use srs_control.Converters.Zpp.{Zpp}
use srs_control.Utils.ByteSwap.{byte_swap, byte_swap-eq}

-- Six bytes as they are read and swapped, and as they are written.
module _ (bs : List ℕ) (six : length bs ≡ 6) (h : AreBytes bs) where
  element_read-lt : from_le_bytes bs < 2 ^ 48
  element_read-lt = subst (λ n. from_le_bytes bs < 256 ^ n) six (from_le_bytes-lt bs h)

  swapped_bytes : byte_swap 48 (from_le_bytes bs) ≡ from_le_bytes (reverse bs)
  swapped_bytes =
      byte_swap-eq (from_le_bytes bs) element_read-lt
      ∙ ap (λ xs. from_le_bytes (reverse xs))
          (subst (λ n. le_bytes n (from_le_bytes bs) ≡ bs) six (le_bytes-from_le_bytes bs h))

  six_reversed : length (reverse bs) ≡ 6
  six_reversed = length-reverse bs ∙ six

  swapped-lt : byte_swap 48 (from_le_bytes bs) < 2 ^ 48
  swapped-lt = rw swapped_bytes (
      subst (λ n. from_le_bytes (reverse bs) < 256 ^ n) six_reversed
        (from_le_bytes-lt (reverse bs) (reverse-AreBytes bs h)))

  element_bytes-swapped : element_bytes (byte_swap 48 (from_le_bytes bs)) ≡ bs
  element_bytes-swapped = rw swapped_bytes (
      ap reverse (
        subst (λ n. le_bytes n (from_le_bytes (reverse bs)) ≡ reverse bs) six_reversed
          (le_bytes-from_le_bytes (reverse bs) (reverse-AreBytes bs h)))
      ∙ reverse-reverse bs)

-- The elements, once they are swapped, are 48 bits each, and are written as these bytes.
pub get_elements_total :
    (z : Zpp) (n : ℕ) (bs : List ℕ)
    → 6 * n ≤ length bs
    → AreBytes bs
    → (es : List ℕ) × (get_elements z n bs ≡ some es)
      × (length es ≡ n)
      × All (λ e. e < 2 ^ 48) (byte_reverse_data_sq es)
      × (body_bytes (byte_reverse_data_sq es) ≡ take (6 * n) bs)
unfolding get_elements byte_reverse_data_sq
get_elements_total z zero bs long h = ([], refl, refl, tt, refl)
get_elements_total z (suc n) bs long h =
    let six : length (take 6 bs) ≡ 6 = omega (arith, length-take 6 bs) in
    let (es, e, len, lt, bytes) =
      get_elements_total z n (drop 6 bs) (omega (arith, length-drop 6 bs)) (drop-AreBytes 6 bs h) in
    (
      from_le_bytes (take 6 bs) ∷ es,
      rw (first, get_elements, e),
      ap suc len,
      (swapped-lt (take 6 bs) six (take-AreBytes 6 bs h), lt),
      ap₂ ◌++◌ (element_bytes-swapped (take 6 bs) six (take-AreBytes 6 bs h)) bytes
          ∙ sym (take-add 6 (6 * n) bs)
          ∙ ap (λ k. take k bs) (omega arith),
    )
  where
    first : z.get_bitset 6 bs ≡ some (from_le_bytes (take 6 bs), drop 6 bs)
    first =
        subst (λ (l : List ℕ). z.get_bitset 6 l ≡ some (from_le_bytes (take 6 bs), drop 6 bs))
          (take-append-drop 6 bs)
          (z.get_bitset-eq 6 (take 6 bs) (drop 6 bs) (omega (arith, length-take 6 bs))
            (take-AreBytes 6 bs h))
