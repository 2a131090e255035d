-- ===== src/Sht30.antt =====
-- kernel-drivers/sht30/sht30.c: the driver of the temperature and humidity sensor. What the I2C bus
-- and the kernel answer is given; an error is a negative number, as in the kernel.
pub mod Crc
pub mod Convert
pub mod Work
pub mod Device
mod Tests
use Prim.Native.Nat.{bit_and, bit_or, bit_xor}
use edge_omni.Common.{
  ℕ, zero, suc, ◌+◌, ◌-◌, ◌*◌, ◌/◌, ◌%◌, ◌^◌, Bool, true, false, not, ◌&&◌, ◌||◌, Option, none,
  some, List, [], ◌∷◌, ltb, leb, ◌==◌, if◌then◌else◌, get_or, take, drop,
}
use edge_omni.Common.Int.{ℤ, pos, negsuc, sub_ℕ, is_neg}
use edge_omni.Common.Word.{u8}
pub use edge_omni.Common.Bits.{be16}

-- A round of the inner loop of `sht30_crc8`, on a `u8`.
crc_bit : ℕ → ℕ
crc_bit crc = if bit_and crc 0x80 == 0 then u8 (crc * 2) else u8 (bit_xor (crc * 2) 0x31)

-- Eight rounds of it, after the byte has been taken in.
crc_byte : ℕ → ℕ → ℕ
unfolding crc_bit
crc_byte crc byte =
    crc_bit (crc_bit (crc_bit (crc_bit (crc_bit (crc_bit (crc_bit (crc_bit (bit_xor crc byte))))))))

crc_from : ℕ → List ℕ → ℕ
crc_from crc [] = crc
crc_from crc (byte ∷ rest) = crc_from (crc_byte crc byte) rest

pub sht30_crc8 : List ℕ → ℕ
unfolding crc_from crc_byte
sht30_crc8 message = crc_from 0xFF message

-- EIO, ENOMEM and ENODATA of Linux, negated.
abbrev pub minus_eio : ℤ
minus_eio = negsuc 4

abbrev pub minus_enomem : ℤ
minus_enomem = negsuc 11

abbrev pub minus_enodata : ℤ
minus_enodata = negsuc 60

-- `sht30_send_cmd` and `sht30_read_data` turn the number of bytes that the bus has moved into 0 or
-- an error: a negative number as it is, and a short transfer as -EIO.
pub transferred : ℕ → ℤ → ℤ
transferred len (negsuc e) = negsuc e
transferred len (pos n) = if n == len then pos 0 else minus_eio

-- The two bytes of a command, most significant first.
pub command_bytes : ℕ → List ℕ
command_bytes cmd = cmd / 2 ^ 8 ∷ bit_and cmd 0xFF ∷ []

-- `struct sht30_data`, less its pointers.
pub record Reading : Type 0 where
  pub temp : ℤ  -- s32
  pub humidity : ℤ  -- s32
  pub valid : Bool

pub temp_of : ℕ → ℤ
temp_of temp_raw = sub_ℕ (21965 * temp_raw / 2 ^ 13) 45000

pub humidity_of : ℕ → ℤ
humidity_of hum_raw = pos (12500 * hum_raw / 2 ^ 13)

abbrev byte_at : List ℕ → ℕ → ℕ
byte_at buf i = get_or buf i 0

-- Where a run of `sht30_work_handler` has left its straight path.
pub data Outcome : Type 0 where
  send_failed read_failed temp_crc_error humidity_crc_error measured : Outcome

-- The checks and the conversion of the six bytes of a frame.
pub accept : Reading → List ℕ → Outcome × Reading
accept r buf =
    if not (sht30_crc8 (take 2 buf) == byte_at buf 2)
    then (temp_crc_error, r)
    else if not (sht30_crc8 (take 2 (drop 3 buf)) == byte_at buf 5)
    then (humidity_crc_error, r)
    else (
      measured,
      record {
        temp = temp_of (be16 (byte_at buf 0) (byte_at buf 1));
        humidity = humidity_of (be16 (byte_at buf 3) (byte_at buf 4));
        valid = true;
      },
    )

abbrev is_error : ℤ → Bool
is_error (pos zero) = false
is_error _ = true

-- `sht30_work_handler`: what the bus answers to the command 0x2400, what it answers to the read,
-- and the six bytes that it delivers are given. The result says whether the work is scheduled again.
pub work_handler : Reading → ℤ → ℤ → List ℕ → Outcome × Reading × Bool
unfolding transferred accept
work_handler r sent received buf =
    let (outcome, r') = accept r buf in
    if is_error (transferred 2 sent)
    then (send_failed, r, true)
    else if is_error (transferred 6 received)
    then (read_failed, r, true)
    else (outcome, r', true)
