-- ===== src/Sht30/Convert.antt =====
-- The conversion of the raw words to thousandths of a degree and of a percent.

use edge_omni.Common.{ℕ, ◌+◌, ◌*◌, ◌/◌, ◌^◌, ◌≤◌, ◌<◌, ◌≡◌, refl, arith}
use edge_omni.Common.Bits.{bit_or-shifted}
use edge_omni.Common.Int.{pos, negsuc, sub_ℕ, ◌≤ℤ◌}
use edge_omni.Sht30.{temp_of, humidity_of, be16}

-- Two bytes make a word, the first one high.
pub be16-eq : (high low : ℕ) → low < 256 → be16 high low ≡ high * 256 + low
be16-eq high low h = bit_or-shifted 8 high low h

-- On every raw word the two products fit into an s32, and the results stay between -45 degrees and
-- 130.717 degrees, and between 0 and 99.998 percent.
pub conversion_bounds :
    (raw : ℕ)
    → raw < 2 ^ 16
    → (21965 * raw < 2 ^ 31)
      × (12500 * raw < 2 ^ 31)
      × (negsuc 44999 ≤ℤ temp_of raw)
      × (temp_of raw ≤ℤ pos 130717)
      × (pos 0 ≤ℤ humidity_of raw)
      × (humidity_of raw ≤ℤ pos 99998)
unfolding temp_of humidity_of
conversion_bounds raw h =
    (omega arith, omega arith, ground arith, ground arith, ground arith, ground arith)

-- A greater raw word never gives a smaller result.
pub conversion_mono :
    (a b : ℕ) → a ≤ b → (temp_of a ≤ℤ temp_of b) × (humidity_of a ≤ℤ humidity_of b)
unfolding temp_of humidity_of
conversion_mono a b h = (ground arith, ground arith)

-- From the middle of the raw range on the driver reports between 357.9 and 717.1 thousandths of a
-- degree more than the sensor's formula -45 + 175 * raw / 65535, whose fraction is not cut off
-- here.
pub temp_above_formula :
    (raw : ℕ)
    → raw < 2 ^ 16
    → 2 ^ 15 ≤ raw
    → (n : ℕ) × (temp_of raw ≡ sub_ℕ n 45000)
      × (1750000 * raw + 3579 * 65535 ≤ 10 * n * 65535)
      × (10 * n * 65535 ≤ 1750000 * raw + 7171 * 65535)
unfolding temp_of
temp_above_formula raw h k = (21965 * raw / 2 ^ 13, refl, omega arith, omega arith)
