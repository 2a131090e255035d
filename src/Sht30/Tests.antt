-- ===== src/Sht30/Tests.antt =====
-- Known values of the driver, and its theorems at concrete inputs.
use edge_omni.Common.{
  ℕ, ◌+◌, ◌*◌, ◌^◌, ◌≤◌, ◌<◌, ◌≡◌, ◌≢◌, ◌⊎◌, inl, inr, refl, arith, true, false, [], ◌∷◌,
}
use edge_omni.Common.Int.{pos, negsuc, sub_ℕ, ◌≤ℤ◌}
use edge_omni.Sht30.{
  Reading, measured, temp_crc_error, humidity_crc_error, sht30_crc8, work_handler, temp_of,
  humidity_of, be16,
}
use edge_omni.Sht30.Convert.{conversion_bounds, conversion_mono, temp_above_formula}
use edge_omni.Sht30.Work.{
  work_handler_failure, intact_frame-measured, temp_error_rejected, humidity_error_rejected, frame,
}
use edge_omni.Sht30.Device.{probe, probe_result}

-- The example of the sensor's data sheet.
crc_of_beef : sht30_crc8 (0xBE ∷ 0xEF ∷ []) ≡ 0x92
unfolding sht30_crc8
crc_of_beef = refl

conversion_bounds_example :
    (21965 * 25000 < 2 ^ 31)
    × (12500 * 25000 < 2 ^ 31)
    × (negsuc 44999 ≤ℤ temp_of 25000)
    × (temp_of 25000 ≤ℤ pos 130717)
    × (pos 0 ≤ℤ humidity_of 25000)
    × (humidity_of 25000 ≤ℤ pos 99998)
conversion_bounds_example = conversion_bounds 25000 (omega arith)

conversion_mono_example : (temp_of 100 ≤ℤ temp_of 200) × (humidity_of 100 ≤ℤ humidity_of 200)
conversion_mono_example = conversion_mono 100 200 (omega arith)

temp_above_formula_example :
    (n : ℕ) × (temp_of 40000 ≡ sub_ℕ n 45000)
    × (1750000 * 40000 + 3579 * 65535 ≤ 10 * n * 65535)
    × (10 * n * 65535 ≤ 1750000 * 40000 + 7171 * 65535)
temp_above_formula_example = temp_above_formula 40000 (omega arith) (omega arith)

abbrev none_yet : Reading
none_yet = record { temp = pos 0; humidity = pos 0; valid = false }

work_handler_failure_example :
    let (outcome, r', scheduled) = work_handler none_yet (negsuc 4) (pos 6) [] in
    (scheduled ≡ true) × ((outcome ≡ measured) ⊎ (r' ≡ none_yet))
work_handler_failure_example = work_handler_failure none_yet (negsuc 4) (pos 6) []

intact_frame-measured_example :
    work_handler none_yet (pos 2) (pos 6) (frame 0x66 0x66 0x80 0x00) ≡ (
      measured,
      record {
        temp = temp_of (be16 0x66 0x66);
        humidity = humidity_of (be16 0x80 0x00);
        valid = true;
      },
      true,
    )
intact_frame-measured_example = intact_frame-measured none_yet 0x66 0x66 0x80 0x00

temp_error_rejected_example :
    work_handler none_yet (pos 2) (pos 6) (0xBE ∷ 0xEE ∷ 0x92 ∷ 1 ∷ 2 ∷ 3 ∷ [])
    ≡ (temp_crc_error, none_yet, true)
unfolding sht30_crc8
temp_error_rejected_example =
    temp_error_rejected none_yet 0xBE 0xEF 0x92 0xBE 0xEE 0x92 1 2 3
      (omega arith, (omega arith, (omega arith, (omega arith, tt)))) refl
      (inr (inl (refl, omega arith, refl)))

humidity_error_rejected_example :
    work_handler none_yet
      (pos 2)
      (pos 6)
      (7 ∷ 8 ∷ sht30_crc8 (7 ∷ 8 ∷ []) ∷ 0xBE ∷ 0xEE ∷ 0x92 ∷ [])
    ≡ (humidity_crc_error, none_yet, true)
unfolding sht30_crc8
humidity_error_rejected_example =
    humidity_error_rejected none_yet 7 8 0xBE 0xEF 0x92 0xBE 0xEE 0x92
      (omega arith, (omega arith, (omega arith, (omega arith, tt)))) refl
      (inr (inl (refl, omega arith, refl)))

probe_result_example :
    let (ret, d) = probe true (pos 2) (negsuc 11) in
    ((ret ≡ pos 0)
      × (d.work_scheduled ≡ true)
      × (d.hwmon_registered ≡ true)
      × (d.client_data ≡ true))
    ⊎ ((ret ≢ pos 0) × (d.work_scheduled ≡ false) × (d.hwmon_registered ≡ false))
probe_result_example = probe_result true (pos 2) (negsuc 11)
