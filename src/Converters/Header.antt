-- ===== src/Converters/Header.antt =====
-- StructDeserializer.cpp: the header that it reads of any bytes.
use native.Mathlib.Nat.{zero-add, suc-add}
use srs_control.Base.Digits.{AreBytes, take-AreBytes, drop-AreBytes}
use srs_control.Base.{
  ℕ, zero, suc, ◌+◌, ◌^◌, ◌<◌, ◌≤◌, ◌≡◌, ap, ◌∙◌, sym, List, [], ◌∷◌, ◌++◌, some, arith, length,
  length-take, length-drop, take, drop, take-append-drop, drop-drop,
}
use srs_control.Converters.StructDeserializer.{get_header}
use srs_control.Converters.StructSerializer.{put_header}
use srs_control.Converters.Zpp.{Zpp}
use srs_control.Data.Structs.{ReceiveDataHeader, IsHeader}

pub take-add : (a b : ℕ) (xs : List ℕ) → take (a + b) xs ≡ take a xs ++ take b (drop a xs)
take-add zero b xs = rw zero-add
take-add (suc a) zero [] = rw suc-add
take-add (suc a) (suc b) [] = rw suc-add
take-add (suc a) b (x ∷ xs) = rw suc-add (ap (◌∷◌ x) (take-add a b xs))

-- The next bytes, from the n-th.
abbrev next_bytes : (w n : ℕ) → List ℕ → List ℕ
next_bytes w n bs = take w (drop n bs)

next_bytes-add :
    (a b n : ℕ) (bs : List ℕ)
    → next_bytes (a + b) n bs ≡ next_bytes a n bs ++ next_bytes b (n + a) bs
next_bytes-add a b n bs =
    take-add a b (drop n bs) ∙ ap (λ xs. next_bytes a n bs ++ take b xs) (drop-drop a n bs)

module _ (z : Zpp) (bs : List ℕ) (h : AreBytes bs) where
  get_uint_at :
      (w n : ℕ)
      → n + w ≤ length bs
      → (x : ℕ) × (x < 256 ^ w)
        × (z.put_uint w x ≡ next_bytes w n bs)
        × (z.get_uint w (drop n bs) ≡ some (x, drop (n + w) bs))
  get_uint_at w n long =
      let (x, lt, put, get) =
        z.get_uint-bytes w (take w (drop n bs)) (drop w (drop n bs))
          (omega (arith, length-take w (drop n bs), length-drop n bs))
          (take-AreBytes w (drop n bs) (drop-AreBytes n bs h)) in
      (
        x,
        lt,
        put,
        ap (z.get_uint w) (sym (take-append-drop w (drop n bs)))
            ∙ get
            ∙ ap (λ l. some (x, l)) (drop-drop w n bs),
      )

  -- The header of sixteen bytes holds the values of its types, and is written as these bytes.
  pub get_header_total :
      (p : ℕ)
      → 16 ≤ length bs
      → (header : ReceiveDataHeader) × (get_header z bs ≡ some (header, drop 16 bs))
        × IsHeader header
        × (put_header z p header ≡ take 16 bs)
  unfolding get_header put_header
  get_header_total p long =
      let (counter, l₀, p₀, e₀) = get_uint_at 4 0 (omega arith) in
      let (tag₀, l₁, p₁, e₁) = get_uint_at 1 4 (omega arith) in
      let (tag₁, l₂, p₂, e₂) = get_uint_at 1 5 (omega arith) in
      let (tag₂, l₃, p₃, e₃) = get_uint_at 1 6 (omega arith) in
      let (fec, l₄, p₄, e₄) = get_uint_at 1 7 (omega arith) in
      let (stamp, l₅, p₅, e₅) = get_uint_at 4 8 (omega arith) in
      let (over, l₆, p₆, e₆) = get_uint_at 4 12 (omega arith) in
      (
        record {
          frame_counter = counter;
          vmm_tag = (tag₀, tag₁, tag₂);
          fec_id = fec;
          udp_timestamp = stamp;
          overflow = over;
        },
        rw (e₀, e₁, e₂, e₃, e₄, e₅, e₆),
        record {
          frame_counter = omega (arith, l₀);
          vmm_tag = (omega (arith, l₁), omega (arith, l₂), omega (arith, l₃));
          fec_id = omega (arith, l₄);
          udp_timestamp = omega (arith, l₅);
          overflow = omega (arith, l₆);
        },
        rw (
          p₀,
          p₁,
          p₂,
          p₃,
          p₄,
          p₅,
          p₆,
          next_bytes-add 4 12 0 bs,
          next_bytes-add 1 11 4 bs,
          next_bytes-add 1 10 5 bs,
          next_bytes-add 1 9 6 bs,
          next_bytes-add 1 8 7 bs,
          next_bytes-add 4 4 8 bs,
        ),
      )
