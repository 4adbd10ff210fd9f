-- ===== src/Data/LargeBuffer.antt =====
-- backend/srs/data/LargeBuffer.hpp: a vector of bytes that keeps its length, and the number of its
-- bytes that are valid. `data_` never shrinks but by a move, which also takes its capacity, so
-- `is_empty` asks for its length only.
use srs_control.Base.{
  ℕ, zero, suc, ◌∷◌, ◌∙◌, refl, ap, ◌-◌, ◌≤◌, ◌≡◌, Bool, List, [], ◌++◌, arith, leb, ◌==◌,
  if◌then◌else◌, length, take, drop, replicate, length-append, length-take, length-drop,
  length-replicate, take-append,
}

pub record LargeBuffer : Type 0 where
  pub size_ : ℕ
  pub data_ : List ℕ

abbrev pub empty_buffer : LargeBuffer
empty_buffer = record { size_ = 0; data_ = [] }

-- `LargeBuffer(buffer_size)`.
abbrev pub allocate : (buffer_size : ℕ) → LargeBuffer
allocate buffer_size = record { size_ = 0; data_ = replicate buffer_size 0 }

-- `std::vector::resize`.
abbrev pub resize_vector : ℕ → List ℕ → List ℕ
resize_vector n xs = take n xs ++ replicate (n - length xs) 0

unfoldable pub resize : LargeBuffer → (size : ℕ) → LargeBuffer
resize b size =
    let n = if leb (length b.data_) size then size else length b.data_ in
    record { size_ = size; data_ = resize_vector n b.data_ }

unfoldable pub valid_data : LargeBuffer → List ℕ
valid_data b = take b.size_ b.data_

unfoldable pub is_empty : LargeBuffer → Bool
is_empty b = length b.data_ == 0

-- What the defaulted move leaves behind: the vector is empty, the size stays.
abbrev pub moved_from : LargeBuffer → LargeBuffer
moved_from b = record b { data_ = [] }

-- A socket writes a datagram to `get_all_data`.
unfoldable pub fill : LargeBuffer → (datagram : List ℕ) → LargeBuffer
fill b datagram = record b { data_ = datagram ++ drop (length datagram) b.data_ }

pub length_grown : (n : ℕ) (xs : List ℕ) → length (resize_vector n xs) ≡ n
length_grown n xs = omega (
  arith,
  length-append (take n xs) (replicate (n - length xs) 0),
  length-take n xs,
  length-replicate {A = ℕ} (n - length xs) 0,
)

pub length-resize :
    (b : LargeBuffer) (n : ℕ)
    → (n ≤ length (resize b n).data_) × (length b.data_ ≤ length (resize b n).data_)
unfolding resize
length-resize b n = ground (arith, length_grown n b.data_, length_grown (length b.data_) b.data_)

take-longer :
    (m n : ℕ) (xs ys : List ℕ) → m ≤ n → m ≤ length xs → take m (take n xs ++ ys) ≡ take m xs
take-longer zero n xs ys p q = refl
take-longer (suc m) zero xs ys p q = absurd (omega arith)
take-longer (suc m) (suc n) [] ys p q = absurd (omega arith)
take-longer (suc m) (suc n) (x ∷ xs) ys p q =
    ap (◌∷◌ x) (take-longer m n xs ys (omega arith) (omega arith))

-- A datagram that fits the buffer is what the buffer then holds.
pub valid_data-resize :
    (b : LargeBuffer) (datagram : List ℕ)
    → length datagram ≤ length b.data_
    → valid_data (resize (fill b datagram) (length datagram)) ≡ datagram
unfolding resize valid_data fill
valid_data-resize b datagram fits =
    let rest = drop (length datagram) b.data_ in
    let whole = length-append datagram rest in
    let n =
      if leb (length (fill b datagram).data_) (length datagram)
      then length datagram
      else length (fill b datagram).data_ in
    take-longer (length datagram) n (datagram ++ rest)
      (replicate (n - length (fill b datagram).data_) 0) (ground (arith, whole))
      (omega (arith, whole))
    ∙ take-append datagram rest (length datagram) refl

pub length-fill :
    (b : LargeBuffer) (datagram : List ℕ)
    → length datagram ≤ length b.data_
    → length (fill b datagram).data_ ≡ length b.data_
unfolding fill
length-fill b datagram fits = omega (
  arith,
  length-append datagram (drop (length datagram) b.data_),
  length-drop (length datagram) b.data_,
)
