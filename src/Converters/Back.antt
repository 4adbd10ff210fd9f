-- ===== src/Converters/Back.antt =====
-- StructDeserializer.cpp's `array_to_hit` and `array_to_marker` on any 48 bits: the fields that they
-- give, and StructSerializer.cpp's element for those.
use srs_control.Base.{ℕ, ◌+◌, ◌*◌, ◌/◌, ◌%◌, ◌^◌, ◌<◌, ◌≡◌, true, false, not, arith, ◌==◌}
use srs_control.Converters.StructDeserializer.{array_to_hit, array_to_marker, check_is_hit}
use srs_control.Converters.StructSerializer.{bit_of}
use srs_control.Converters.Wire.{hit_element, marker_element}
use srs_control.Data.Compact.{hit_word, marker_word, word_hit, word_marker}
use srs_control.Data.Structs.{FitsHit, FitsMarker}
use srs_control.Utils.Bitset.{merge_bits-eq}
use srs_control.Utils.Gray.{gray_to_binary, gray_to_binary-lt, binary_to_gray-gray_to_binary}

-- The fields of an element.
array_to_hit-eq :
    (e : ℕ)
    → e < 2 ^ 48
    → array_to_hit e ≡ record {
      is_over_threshold = not (e / 2 ^ 14 % 2 == 0);
      channel_num = e / 2 ^ 8 % 2 ^ 6;
      tdc = e % 2 ^ 8;
      offset = e / 2 ^ 43 % 2 ^ 5;
      vmm_id = e / 2 ^ 38 % 2 ^ 5;
      adc = e / 2 ^ 28 % 2 ^ 10;
      bc_id = gray_to_binary (e / 2 ^ 16 % 2 ^ 12);
    }
unfolding array_to_hit word_hit
array_to_hit-eq e h = ground arith

array_to_marker-eq :
    (e : ℕ)
    → e < 2 ^ 48
    → array_to_marker e
      ≡ record { srs_timestamp = e / 2 ^ 16 * 2 ^ 10 + e % 2 ^ 10; vmm_id = e / 2 ^ 10 % 2 ^ 5 }
unfolding array_to_marker word_marker
array_to_marker-eq e h =
    ground
      (arith, merge_bits-eq 32 10 (e / 2 ^ 16 % 2 ^ 32) (e % 2 ^ 10) (omega arith) (omega arith))

bit_of-digit : (x : ℕ) → x < 2 → bit_of (not (x == 0)) ≡ x
bit_of-digit x h = ground arith

pub array_to_hit-FitsHit : (e : ℕ) → e < 2 ^ 48 → FitsHit (array_to_hit e)
array_to_hit-FitsHit e h = rw (array_to_hit-eq e h) (record {
  channel_num = omega arith;
  bc_id = gray_to_binary-lt 12 (e / 2 ^ 16 % 2 ^ 12) (omega arith);
  adc = omega arith;
  vmm_id = omega arith;
  offset = omega arith;
  tdc = omega arith;
})

pub array_to_marker-FitsMarker : (e : ℕ) → e < 2 ^ 48 → FitsMarker (array_to_marker e)
array_to_marker-FitsMarker e h =
    rw (array_to_marker-eq e h) (record { vmm_id = omega arith; srs_timestamp = omega arith })

-- The element that is written for a hit that was read is the one that was read.
pub hit_element-array_to_hit :
    (p e : ℕ) → p < 2 ^ 16 → e < 2 ^ 48 → check_is_hit e ≡ true → hit_element p (array_to_hit e) ≡ e
unfolding check_is_hit hit_word
hit_element-array_to_hit p e q h c =
    rw
      (
        array_to_hit-eq e h,
        binary_to_gray-gray_to_binary (e / 2 ^ 16 % 2 ^ 12),
        bit_of-digit (e / 2 ^ 14 % 2) (omega arith),
      )
      (ground arith)

pub marker_element-array_to_marker :
    (p e : ℕ)
    → p < 2 ^ 16
    → e < 2 ^ 48
    → check_is_hit e ≡ false
    → marker_element p (array_to_marker e) ≡ e
unfolding check_is_hit marker_word
marker_element-array_to_marker p e q h c = rw (array_to_marker-eq e h) (ground arith)
