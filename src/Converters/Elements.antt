-- ===== src/Converters/Elements.antt =====
-- One hit or marker through the bit fields of the wire format: StructSerializer.cpp's
-- `hit_to_compact` and `marker_to_compact` against StructDeserializer.cpp's `array_to_hit`,
-- `array_to_marker` and `check_is_hit`.
use native.Mathlib.Nat.{mod-eq_of_lt}
use srs_control.Base.Expected.{value}
use srs_control.Base.{ℕ, ◌/◌, ◌%◌, ◌^◌, ◌<◌, ◌≡◌, refl, Bool, true, false, not, arith, ◌==◌}
use srs_control.Converters.StructDeserializer.{array_to_hit, array_to_marker, check_is_hit}
use srs_control.Converters.StructSerializer.{hit_to_compact, marker_to_compact, bit_of}
use srs_control.Data.Compact.{
  HitDataCompact, MarkerDataCompact, FitsHitCompact, FitsMarkerCompact, hit_word, marker_word,
  word_hit-hit_word, word_marker-marker_word,
}
use srs_control.Data.Structs.{MarkerData, HitData, FitsHit, FitsMarker}
use srs_control.Utils.Bitset.{get_low_bits-eq, get_high_bits-eq, merge_bits-eq, shift_left, bitset}
use srs_control.Utils.Gray.{binary_to_gray, gray_to_binary-binary_to_gray, binary_to_gray-lt}

-- The 48 bits that a word carries.
abbrev pub element_of : (word : ℕ) → ℕ
element_of word = word / 2 ^ 16

-- The fields of a hit that fits them.
abbrev pub hit_fields : HitData → HitDataCompact
hit_fields h = record {
  tdc = h.tdc;
  channel_num = h.channel_num;
  is_over_threshold = bit_of h.is_over_threshold;
  flag = 1;
  bc_id = binary_to_gray h.bc_id;
  adc = h.adc;
  vmm_id = h.vmm_id;
  offset = h.offset;
}

abbrev pub marker_fields : MarkerData → MarkerDataCompact
marker_fields m = record {
  timestamp_low_bits = m.srs_timestamp % 2 ^ 10;
  vmm_id = m.vmm_id;
  flag = 0;
  timestamp_high_bits = m.srs_timestamp / 2 ^ 10;
}

bit_of-lt : (b : Bool) → bit_of b < 2
bit_of-lt true = omega arith
bit_of-lt false = omega arith

pub hit_fields-FitsHitCompact : (h : HitData) → FitsHit h → FitsHitCompact (hit_fields h)
hit_fields-FitsHitCompact h f = record {
  tdc = f.tdc;
  channel_num = f.channel_num;
  is_over_threshold = bit_of-lt h.is_over_threshold;
  flag = omega arith;
  bc_id = binary_to_gray-lt 12 h.bc_id f.bc_id;
  adc = f.adc;
  vmm_id = f.vmm_id;
  offset = f.offset;
}

pub marker_fields-FitsMarkerCompact :
    (m : MarkerData) → FitsMarker m → FitsMarkerCompact (marker_fields m)
marker_fields-FitsMarkerCompact m f = omega arith

pub hit_to_compact-eq : (h : HitData) → FitsHit h → hit_to_compact h ≡ value (hit_fields h)
unfolding hit_to_compact
hit_to_compact-eq h f = ground (arith, binary_to_gray-lt 12 h.bc_id f.bc_id, mod-eq_of_lt f.bc_id)

pub marker_to_compact-eq :
    (m : MarkerData) → FitsMarker m → marker_to_compact m ≡ value (marker_fields m)
unfolding marker_to_compact
marker_to_compact-eq m f = ground (
  arith,
  get_low_bits-eq 10 32 m.srs_timestamp,
  get_high_bits-eq 32 10 m.srs_timestamp f.srs_timestamp,
  mod-eq_of_lt f.srs_timestamp,
)

abbrev expanded : (element : ℕ) → ℕ
expanded element = shift_left 64 (bitset 64 element) 16

expanded-hit :
    (p : ℕ) (c : HitDataCompact)
    → p < 2 ^ 16
    → FitsHitCompact c
    → expanded (element_of (hit_word p c)) ≡ hit_word 0 c
unfolding hit_word
expanded-hit p c h f = omega arith

expanded-marker :
    (p : ℕ) (c : MarkerDataCompact)
    → p < 2 ^ 16
    → FitsMarkerCompact c
    → expanded (element_of (marker_word p c)) ≡ marker_word 0 c
unfolding marker_word
expanded-marker p c h f = omega arith

pub check_is_hit-hit_word :
    (p : ℕ) (c : HitDataCompact)
    → p < 2 ^ 16
    → FitsHitCompact c
    → check_is_hit (element_of (hit_word p c)) ≡ (c.flag == 1)
unfolding check_is_hit hit_word
check_is_hit-hit_word p c h f = ground arith

pub check_is_hit-marker_word :
    (p : ℕ) (c : MarkerDataCompact)
    → p < 2 ^ 16
    → FitsMarkerCompact c
    → check_is_hit (element_of (marker_word p c)) ≡ (c.flag == 1)
unfolding check_is_hit marker_word
check_is_hit-marker_word p c h f = ground arith

bit_of-ne-zero : (b : Bool) → not (bit_of b == 0) ≡ b
bit_of-ne-zero true = refl
bit_of-ne-zero false = refl

-- A hit that fits the bit fields is read back from its word, whatever the padding.
pub array_to_hit-hit_word :
    (p : ℕ) (h : HitData)
    → p < 2 ^ 16
    → FitsHit h
    → array_to_hit (element_of (hit_word p (hit_fields h))) ≡ h
unfolding array_to_hit
array_to_hit-hit_word p h q f =
    rw
      (
        expanded-hit p (hit_fields h) q (hit_fields-FitsHitCompact h f),
        word_hit-hit_word 0 (hit_fields h) (omega arith) (hit_fields-FitsHitCompact h f),
      )
      (ground (
        arith,
        bit_of-ne-zero h.is_over_threshold,
        binary_to_gray-lt 12 h.bc_id f.bc_id,
        gray_to_binary-binary_to_gray h.bc_id,
      ))

-- So is a marker.
pub array_to_marker-marker_word :
    (p : ℕ) (m : MarkerData)
    → p < 2 ^ 16
    → FitsMarker m
    → array_to_marker (element_of (marker_word p (marker_fields m))) ≡ m
unfolding array_to_marker
array_to_marker-marker_word p m q f =
    rw
      (
        expanded-marker p (marker_fields m) q (marker_fields-FitsMarkerCompact m f),
        word_marker-marker_word 0 (marker_fields m) (omega arith)
            (marker_fields-FitsMarkerCompact m f),
      )
      (ground (
        arith,
        merge_bits-eq 32 10 (m.srs_timestamp / 2 ^ 10 % 2 ^ 32) (m.srs_timestamp % 2 ^ 10 % 2 ^ 10)
            (omega arith) (omega arith),
      ))
