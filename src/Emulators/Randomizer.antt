-- ===== src/Emulators/Randomizer.antt =====
-- backend/srs/emulators/RandomizeStruct.hpp: the frames that an emulator makes up, within the limits
-- of backend/srs/data/SRSDataCompact.hpp. The generator of the standard library with its uniform
-- distributions is an interface. A hit draws its fields in the order in which they are written.
pub mod Bounds
use srs_control.Base.{ℕ, zero, suc, ◌-◌, ◌^◌, ◌%◌, ◌<◌, ◌≤◌, false, List, [], ◌∷◌, arith, ◌+◌}
use srs_control.Data.Structs.{
  ReceiveDataHeader, HitData, MarkerData, StructData, FitsHit, FitsMarker, All,
}

-- `std::mt19937` and `std::uniform_int_distribution`: a number of the interval, and the generator
-- afterwards.
pub record RandomSource : Type 1 where
  pub Generator : Type 0
  pub uniform : Generator → (min max : ℕ) → ℕ × Generator
  pub uniform-bounds :
      (g : Generator) (min max : ℕ)
      → min ≤ max
      → (min ≤ (uniform g min max).0) × ((uniform g min max).0 ≤ max)

pub record MinMax : Type 0 where
  pub min : ℕ
  pub max : ℕ

pub record Config : Type 0 where
  pub n_hits : MinMax
  pub n_markers : MinMax

pub record Opt : Type 0 where
  pub frame_counter : ℕ
  pub fec_id : ℕ

-- The milliseconds of the system clock are cut to 32 bits.
unfoldable pub set_header : (now frame_counter fec_id : ℕ) → ReceiveDataHeader
set_header now frame_counter fec_id = record {
  frame_counter = frame_counter;
  vmm_tag = (b'V', b'M', b'3');
  fec_id = fec_id;
  udp_timestamp = now % 2 ^ 32;
  overflow = 0;
}

module _ (r : RandomSource) where
  unfoldable pub random_hit : r.Generator → HitData × r.Generator
  random_hit g =
      let (channel_num, g) = r.uniform g 0 (2 ^ 6 - 1) in
      let (tdc, g) = r.uniform g 0 (2 ^ 8 - 1) in
      let (offset, g) = r.uniform g 0 (2 ^ 5 - 1) in
      let (vmm_id, g) = r.uniform g 0 (2 ^ 5 - 1) in
      let (adc, g) = r.uniform g 0 (2 ^ 10 - 1) in
      let (bc_id, g) = r.uniform g 0 (2 ^ 12 - 1) in
      (
        record {
          is_over_threshold = false;
          channel_num = channel_num;
          tdc = tdc;
          offset = offset;
          vmm_id = vmm_id;
          adc = adc;
          bc_id = bc_id;
        },
        g,
      )

  unfoldable pub random_marker : r.Generator → MarkerData × r.Generator
  random_marker g =
      let (vmm_id, g) = r.uniform g 0 (2 ^ 5 - 1) in
      let (srs_timestamp, g) = r.uniform g 0 (2 ^ (10 + 32) - 1) in
      (record { vmm_id = vmm_id; srs_timestamp = srs_timestamp }, g)

  -- The loops over `n_hits` and `n_markers`.
  unfoldable pub random_hits : (n_hits : ℕ) → r.Generator → List HitData × r.Generator
  random_hits zero g = ([], g)
  random_hits (suc n_hits) g =
      let (hit, g) = random_hit g in let (hits, g) = random_hits n_hits g in (hit ∷ hits, g)

  unfoldable pub random_markers : (n_markers : ℕ) → r.Generator → List MarkerData × r.Generator
  random_markers zero g = ([], g)
  random_markers (suc n_markers) g =
      let (marker, g) = random_marker g in
      let (markers, g) = random_markers n_markers g in (marker ∷ markers, g)

  unfoldable pub randomize_hits : Config → r.Generator → List HitData × r.Generator
  randomize_hits config g =
      let (n_hits, g) = r.uniform g config.n_hits.min config.n_hits.max in random_hits n_hits g

  unfoldable pub randomize_markers : Config → r.Generator → List MarkerData × r.Generator
  randomize_markers config g =
      let (n_markers, g) = r.uniform g config.n_markers.min config.n_markers.max in
      random_markers n_markers g

  unfoldable pub randomize_data_struct :
      Config → StructData → (now : ℕ) → Opt → r.Generator → StructData × r.Generator
  randomize_data_struct config data_struct now option g =
      let (hits, g) = randomize_hits config g in
      let (markers, g) = randomize_markers config g in
      (
        record data_struct {
          header = set_header now option.frame_counter option.fec_id;
          hit_data = hits;
          marker_data = markers;
        },
        g,
      )
