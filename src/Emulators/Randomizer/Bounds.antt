-- ===== src/Emulators/Randomizer/Bounds.antt =====
-- backend/srs/emulators/RandomizeStruct.hpp: what a random frame is like.
use srs_control.Base.{ℕ, zero, suc, ◌-◌, ◌+◌, ◌^◌, ◌<◌, ◌≤◌, ◌≡◌, refl, ap, arith, length}
use srs_control.Data.Structs.{StructData, IsHeader, FitsHit, FitsMarker, All}
use srs_control.Emulators.Randomizer.{
  RandomSource, MinMax, Config, Opt, set_header, random_hit, random_marker, random_hits,
  random_markers, randomize_hits, randomize_markers, randomize_data_struct,
}

abbrev pub IsInterval : MinMax → Type 0
IsInterval m = m.min ≤ m.max

abbrev pub IsWithin : MinMax → ℕ → Type 0
IsWithin m n = (m.min ≤ n) × (n ≤ m.max)

abbrev pub IsConfig : Config → Type 0
IsConfig c = IsInterval c.n_hits × IsInterval c.n_markers

-- A frame with the given header fields and numbers of elements, that the wire format holds.
pub record IsRandomFrame (c : Config) (now : ℕ) (option : Opt) (s : StructData) : Type 0 where
  pub header : s.header ≡ set_header now option.frame_counter option.fec_id
  pub n_hits : IsWithin c.n_hits (length s.hit_data)
  pub n_markers : IsWithin c.n_markers (length s.marker_data)
  pub hit_data : All FitsHit s.hit_data
  pub marker_data : All FitsMarker s.marker_data

pub set_header-IsHeader :
    (now frame_counter fec_id : ℕ)
    → frame_counter < 2 ^ 32
    → fec_id < 2 ^ 8
    → IsHeader (set_header now frame_counter fec_id)
unfolding set_header
set_header-IsHeader now frame_counter fec_id f g = omega arith

module _ (r : RandomSource) where
  drawn : (g : r.Generator) (max n : ℕ) → max < n → (r.uniform g 0 max).0 < n
  drawn g max n h = omega (arith, (r.uniform-bounds g 0 max (omega arith)).1)

  random_hit-FitsHit : (g : r.Generator) → FitsHit (random_hit r g).0
  unfolding random_hit
  random_hit-FitsHit g = record {
    channel_num = drawn _ (2 ^ 6 - 1) (2 ^ 6) (omega arith);
    bc_id = drawn _ (2 ^ 12 - 1) (2 ^ 12) (omega arith);
    adc = drawn _ (2 ^ 10 - 1) (2 ^ 10) (omega arith);
    vmm_id = drawn _ (2 ^ 5 - 1) (2 ^ 5) (omega arith);
    offset = drawn _ (2 ^ 5 - 1) (2 ^ 5) (omega arith);
    tdc = drawn _ (2 ^ 8 - 1) (2 ^ 8) (omega arith);
  }

  random_marker-FitsMarker : (g : r.Generator) → FitsMarker (random_marker r g).0
  unfolding random_marker
  random_marker-FitsMarker g = record {
    vmm_id = drawn _ (2 ^ 5 - 1) (2 ^ 5) (omega arith);
    srs_timestamp = drawn _ (2 ^ (10 + 32) - 1) (2 ^ 42) (omega arith);
  }

  random_hits_lem :
      (n : ℕ) (g : r.Generator)
      → (length (random_hits r n g).0 ≡ n) × All FitsHit (random_hits r n g).0
  unfolding random_hits
  random_hits_lem zero g = (refl, tt)
  random_hits_lem (suc n) g =
      let (len, fits) = random_hits_lem n (random_hit r g).1 in
      (ap suc len, (random_hit-FitsHit g, fits))

  random_markers_lem :
      (n : ℕ) (g : r.Generator)
      → (length (random_markers r n g).0 ≡ n) × All FitsMarker (random_markers r n g).0
  unfolding random_markers
  random_markers_lem zero g = (refl, tt)
  random_markers_lem (suc n) g =
      let (len, fits) = random_markers_lem n (random_marker r g).1 in
      (ap suc len, (random_marker-FitsMarker g, fits))

  count-IsWithin :
      (m : MinMax) (g : r.Generator) (n : ℕ)
      → IsInterval m
      → n ≡ (r.uniform g m.min m.max).0
      → IsWithin m n
  count-IsWithin m g n h e =
      let (low, high) = r.uniform-bounds g m.min m.max h in (omega arith, omega arith)

  -- With intervals for the numbers of elements, every frame is as the wire format holds it.
  pub randomize_data_struct-IsRandomFrame :
      (c : Config) (old : StructData) (now : ℕ) (option : Opt) (g : r.Generator)
      → IsConfig c
      → IsRandomFrame c now option (randomize_data_struct r c old now option g).0
  unfolding randomize_data_struct randomize_hits randomize_markers
  randomize_data_struct-IsRandomFrame c old now option g h =
      let (n_hits, g₁) = r.uniform g c.n_hits.min c.n_hits.max in
      let (len_hits, hits) = random_hits_lem n_hits g₁ in
      let g₂ = (random_hits r n_hits g₁).1 in
      let (n_markers, g₃) = r.uniform g₂ c.n_markers.min c.n_markers.max in
      let (len_markers, markers) = random_markers_lem n_markers g₃ in
      record {
        header = refl;
        n_hits = count-IsWithin c.n_hits g _ h.0 len_hits;
        n_markers = count-IsWithin c.n_markers g₂ _ h.1 len_markers;
        hit_data = hits;
        marker_data = markers;
      }
