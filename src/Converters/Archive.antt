-- ===== src/Converters/Archive.antt =====
-- An archive that keeps the laws of `Zpp`, at which the theorems about the converters are tried.
use mathlib.Core.List.{reverse-reverse}
use srs_control.Base.Digits.{
  le_bytes, from_le_bytes, length-le_bytes, from_le_bytes-le_bytes, AreBytes, reverse-AreBytes,
  from_le_bytes-lt, le_bytes-from_le_bytes,
}
use srs_control.Base.{
  ℕ, ◌^◌, ◌<◌, ◌≡◌, refl, ap, ◌∙◌, subst, true, List, ◌++◌, reverse, Option, none, some, arith, leb,
  if◌then◌else◌, length, take, drop, length-append, length-reverse, take-append, drop-append,
}
use srs_control.Converters.Zpp.{Zpp}

unfoldable pub put_bytes : (width x : ℕ) → List ℕ
put_bytes width x = reverse (le_bytes width x)

unfoldable pub get_bytes : (List ℕ → ℕ) → (width : ℕ) → List ℕ → Option (ℕ × List ℕ)
get_bytes value width bs =
    if leb width (length bs) then some (value (take width bs), drop width bs) else none

long_enough : (w : ℕ) (bs rest : List ℕ) → length bs ≡ w → leb w (length (bs ++ rest)) ≡ true
long_enough w bs rest e = ground (arith, length-append bs rest)

pub get_bytes-append :
    (value : List ℕ → ℕ) (w : ℕ) (bs rest : List ℕ)
    → length bs ≡ w
    → get_bytes value w (bs ++ rest) ≡ some (value bs, rest)
unfolding get_bytes
get_bytes-append value w bs rest e =
    rw (long_enough w bs rest e, take-append bs rest w e, drop-append bs rest w e)

pub length-put_bytes : (w x : ℕ) → length (put_bytes w x) ≡ w
unfolding put_bytes
length-put_bytes w x = length-reverse (le_bytes w x) ∙ length-le_bytes w x

unfoldable pub big_endian : List ℕ → ℕ
big_endian bs = from_le_bytes (reverse bs)

pub get_bytes-put_bytes :
    (w x : ℕ) (rest : List ℕ)
    → x < 256 ^ w
    → get_bytes big_endian w (put_bytes w x ++ rest) ≡ some (x, rest)
unfolding put_bytes big_endian
get_bytes-put_bytes w x rest h =
    get_bytes-append big_endian w (put_bytes w x) rest (length-put_bytes w x)
    ∙ ap (λ n. some (n, rest))
        (ap from_le_bytes (reverse-reverse (le_bytes w x)) ∙ from_le_bytes-le_bytes w x h)

pub get_bytes-bytes :
    (w : ℕ) (bs rest : List ℕ)
    → length bs ≡ w
    → AreBytes bs
    → (x : ℕ) × (x < 256 ^ w)
      × (put_bytes w x ≡ bs)
      × (get_bytes big_endian w (bs ++ rest) ≡ some (x, rest))
unfolding put_bytes big_endian
get_bytes-bytes w bs rest e h =
    let len = length-reverse bs ∙ e in
    let reversed = reverse-AreBytes bs h in
    (
      big_endian bs,
      subst (λ n. from_le_bytes (reverse bs) < 256 ^ n) len
          (from_le_bytes-lt (reverse bs) reversed),
      ap reverse (
            subst (λ n. le_bytes n (from_le_bytes (reverse bs)) ≡ reverse bs) len
              (le_bytes-from_le_bytes (reverse bs) reversed))
          ∙ reverse-reverse bs,
      get_bytes-append big_endian w bs rest e,
    )

abbrev pub archive : Zpp
archive = record {
  put_uint = put_bytes;
  get_uint = get_bytes big_endian;
  put_bitset = le_bytes;
  write = λ old new. new ++ drop (length new) old;
  write-eq = λ old new. refl;
  get_bitset = get_bytes from_le_bytes;
  length-put_uint = length-put_bytes;
  get_uint-put_uint = get_bytes-put_bytes;
  get_uint-bytes = get_bytes-bytes;
  put_bitset-eq = λ w x. refl;
  get_bitset-eq = λ w bs rest e h. get_bytes-append from_le_bytes w bs rest e;
}
