-- ===== src/Common/Word.antt =====
-- Machine words: wrap-around written out, and the signed reading of a bit pattern.
use edge_omni.Common.{ℕ, ◌-◌, ◌%◌, ◌^◌, ltb, if◌then◌else◌}
use edge_omni.Common.Int.{ℤ, pos, negsuc}

abbrev pub u8 : ℕ → ℕ
u8 n = n % 2 ^ 8

abbrev pub u16 : ℕ → ℕ
u16 n = n % 2 ^ 16

abbrev pub u32 : ℕ → ℕ
u32 n = n % 2 ^ 32

abbrev pub u64 : ℕ → ℕ
u64 n = n % 2 ^ 64

-- The value of an `int32_t` and of an `int16_t` with the given bit pattern.
abbrev pub signed32 : ℕ → ℤ
signed32 w = if ltb w (2 ^ 31) then pos w else negsuc (2 ^ 32 - 1 - w)

abbrev pub signed16 : ℕ → ℤ
signed16 w = if ltb w (2 ^ 15) then pos w else negsuc (2 ^ 16 - 1 - w)
