-- ===== src/Data/Compact.antt =====
-- backend/srs/data/SRSDataCompact.hpp: the bit fields of a hit and of a marker, as the compilers
-- that the project supports lay them out in a 64-bit word, the first field in the lowest bits. The
-- 16 bits of the unnamed field come as an argument, since C++ leaves their value open.
use srs_control.Base.{ℕ, ◌+◌, ◌*◌, ◌/◌, ◌%◌, ◌^◌, ◌<◌, ◌≡◌, arith}

pub record HitDataCompact : Type 0 where
  pub tdc : ℕ
  pub channel_num : ℕ
  pub is_over_threshold : ℕ
  pub flag : ℕ
  pub bc_id : ℕ
  pub adc : ℕ
  pub vmm_id : ℕ
  pub offset : ℕ

pub record MarkerDataCompact : Type 0 where
  pub timestamp_low_bits : ℕ
  pub vmm_id : ℕ
  pub flag : ℕ
  pub timestamp_high_bits : ℕ

-- `std::bit_cast<uint64_t>` of the two.
unfoldable pub hit_word : (padding : ℕ) → HitDataCompact → ℕ
hit_word padding c =
    padding
    + c.tdc * 2 ^ 16
    + c.channel_num * 2 ^ 24
    + c.is_over_threshold * 2 ^ 30
    + c.flag * 2 ^ 31
    + c.bc_id * 2 ^ 32
    + c.adc * 2 ^ 44
    + c.vmm_id * 2 ^ 54
    + c.offset * 2 ^ 59

unfoldable pub marker_word : (padding : ℕ) → MarkerDataCompact → ℕ
marker_word padding c =
    padding
    + c.timestamp_low_bits * 2 ^ 16
    + c.vmm_id * 2 ^ 26
    + c.flag * 2 ^ 31
    + c.timestamp_high_bits * 2 ^ 32

-- `std::bit_cast` of a word back to its fields.
unfoldable pub word_hit : ℕ → HitDataCompact
word_hit w = record {
  tdc = w / 2 ^ 16 % 2 ^ 8;
  channel_num = w / 2 ^ 24 % 2 ^ 6;
  is_over_threshold = w / 2 ^ 30 % 2;
  flag = w / 2 ^ 31 % 2;
  bc_id = w / 2 ^ 32 % 2 ^ 12;
  adc = w / 2 ^ 44 % 2 ^ 10;
  vmm_id = w / 2 ^ 54 % 2 ^ 5;
  offset = w / 2 ^ 59 % 2 ^ 5;
}

unfoldable pub word_marker : ℕ → MarkerDataCompact
word_marker w = record {
  timestamp_low_bits = w / 2 ^ 16 % 2 ^ 10;
  vmm_id = w / 2 ^ 26 % 2 ^ 5;
  flag = w / 2 ^ 31 % 2;
  timestamp_high_bits = w / 2 ^ 32 % 2 ^ 32;
}

-- What the declared widths hold.
pub record FitsHitCompact (c : HitDataCompact) : Type 0 where
  pub tdc : c.tdc < 2 ^ 8
  pub channel_num : c.channel_num < 2 ^ 6
  pub is_over_threshold : c.is_over_threshold < 2
  pub flag : c.flag < 2
  pub bc_id : c.bc_id < 2 ^ 12
  pub adc : c.adc < 2 ^ 10
  pub vmm_id : c.vmm_id < 2 ^ 5
  pub offset : c.offset < 2 ^ 5

pub record FitsMarkerCompact (c : MarkerDataCompact) : Type 0 where
  pub timestamp_low_bits : c.timestamp_low_bits < 2 ^ 10
  pub vmm_id : c.vmm_id < 2 ^ 5
  pub flag : c.flag < 2
  pub timestamp_high_bits : c.timestamp_high_bits < 2 ^ 32

pub hit_word-lt :
    (p : ℕ) (c : HitDataCompact) → p < 2 ^ 16 → FitsHitCompact c → hit_word p c < 2 ^ 64
unfolding hit_word
hit_word-lt p c h f = omega arith

pub marker_word-lt :
    (p : ℕ) (c : MarkerDataCompact) → p < 2 ^ 16 → FitsMarkerCompact c → marker_word p c < 2 ^ 64
unfolding marker_word
marker_word-lt p c h f = omega arith

pub word_hit-hit_word :
    (p : ℕ) (c : HitDataCompact) → p < 2 ^ 16 → FitsHitCompact c → word_hit (hit_word p c) ≡ c
unfolding hit_word word_hit
word_hit-hit_word p c h f = ground arith

pub word_marker-marker_word :
    (p : ℕ) (c : MarkerDataCompact)
    → p < 2 ^ 16
    → FitsMarkerCompact c
    → word_marker (marker_word p c) ≡ c
unfolding marker_word word_marker
word_marker-marker_word p c h f = ground arith
