-- ===== src/Base/Digits.antt =====
-- A number as its bytes, least significant first, and back.
use mathlib.Core.List.{List, [], ◌∷◌, ◌++◌, reverse, reverse-cons}
use mathlib.Core.Path.{◌≡◌, refl, ap, ap₂, ◌∙◌}
use native.Mathlib.Nat.{pow-suc, mul-div_cancel}
use native.Mathlib.Omega.{arith}
use Prim.Native.Nat.{ℕ, zero, suc, ◌+◌, ◌*◌, ◌/◌, ◌%◌, ◌^◌, ◌<◌}
use srs_control.Base.Lists.{length, take, drop}

unfoldable pub le_bytes : ℕ → ℕ → List ℕ
le_bytes zero x = []
le_bytes (suc w) x = x % 256 ∷ le_bytes w (x / 256)

unfoldable pub from_le_bytes : List ℕ → ℕ
from_le_bytes [] = 0
from_le_bytes (b ∷ bs) = b + 256 * from_le_bytes bs

abbrev pub AreBytes : List ℕ → Type 0
AreBytes [] = Unit {0}
AreBytes (b ∷ bs) = (b < 256) × AreBytes bs

pub length-le_bytes : (w x : ℕ) → length (le_bytes w x) ≡ w
unfolding le_bytes
length-le_bytes zero x = refl
length-le_bytes (suc w) x = ap suc (length-le_bytes w (x / 256))

pub le_bytes-AreBytes : (w x : ℕ) → AreBytes (le_bytes w x)
unfolding le_bytes
le_bytes-AreBytes zero x = tt
le_bytes-AreBytes (suc w) x = (omega arith, le_bytes-AreBytes w (x / 256))

pub from_le_bytes-lt : (bs : List ℕ) → AreBytes bs → from_le_bytes bs < 256 ^ length bs
unfolding from_le_bytes
from_le_bytes-lt [] h = omega arith
from_le_bytes-lt (b ∷ bs) h = omega (arith, from_le_bytes-lt bs h.1, pow-suc 256 (length bs), h.0)

pub from_le_bytes-le_bytes : (w x : ℕ) → x < 256 ^ w → from_le_bytes (le_bytes w x) ≡ x
unfolding from_le_bytes le_bytes
from_le_bytes-le_bytes zero x h = omega arith
from_le_bytes-le_bytes (suc w) x h =
    omega (arith, from_le_bytes-le_bytes w (x / 256) (omega (arith, pow-suc 256 w)))

byte_tail : (b n : ℕ) → b < 256 → (b + 256 * n) / 256 ≡ n
byte_tail b n h = omega arith

pub le_bytes-from_le_bytes :
    (bs : List ℕ) → AreBytes bs → le_bytes (length bs) (from_le_bytes bs) ≡ bs
unfolding from_le_bytes le_bytes
le_bytes-from_le_bytes [] h = refl
le_bytes-from_le_bytes (b ∷ bs) h =
    ap₂ ◌∷◌ (omega (arith, h.0)) (
      ap (le_bytes (length bs)) (byte_tail b (from_le_bytes bs) h.0)
      ∙ le_bytes-from_le_bytes bs h.1)

pub from_le_bytes-append-zero : (bs : List ℕ) → from_le_bytes (bs ++ 0 ∷ []) ≡ from_le_bytes bs
unfolding from_le_bytes
from_le_bytes-append-zero [] = omega arith
from_le_bytes-append-zero (b ∷ bs) = omega (arith, from_le_bytes-append-zero bs)

AreBytes-append : (xs ys : List ℕ) → AreBytes xs → AreBytes ys → AreBytes (xs ++ ys)
AreBytes-append [] ys h k = k
AreBytes-append (x ∷ xs) ys h k = (h.0, AreBytes-append xs ys h.1 k)

pub reverse-AreBytes : (xs : List ℕ) → AreBytes xs → AreBytes (reverse xs)
reverse-AreBytes [] h = tt
reverse-AreBytes (x ∷ xs) h =
    rw (reverse-cons x xs)
      (AreBytes-append (reverse xs) (x ∷ []) (reverse-AreBytes xs h.1) (h.0, tt))

pub le_bytes-scaled : (w y : ℕ) → le_bytes (suc w) (y * 256) ≡ 0 ∷ le_bytes w y
unfolding le_bytes
le_bytes-scaled w y = ap₂ ◌∷◌ (omega arith) (ap (le_bytes w) (mul-div_cancel y (omega arith)))

pub take-AreBytes : (n : ℕ) (xs : List ℕ) → AreBytes xs → AreBytes (take n xs)
take-AreBytes zero xs h = tt
take-AreBytes (suc n) [] h = tt
take-AreBytes (suc n) (x ∷ xs) h = (h.0, take-AreBytes n xs h.1)

pub drop-AreBytes : (n : ℕ) (xs : List ℕ) → AreBytes xs → AreBytes (drop n xs)
drop-AreBytes zero xs h = h
drop-AreBytes (suc n) [] h = tt
drop-AreBytes (suc n) (x ∷ xs) h = drop-AreBytes n xs h.1
