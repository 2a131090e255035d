-- ===== src/Mpu6050/Recovery.antt =====
-- What the recovery does for a device that holds the data line.
use edge_omni.Common.{
  ◌%◌, ◌^◌, ℕ, zero, suc, ◌+◌, ◌-◌, ◌≤◌, ◌<◌, ◌≡◌, ◌↔◌, ◌∙◌, refl, ap, arith, Bool, true, false,
  not, ◌&&◌, ◌||◌, List, [], ◌∷◌, ◌++◌, if◌then◌else◌, Bool-cases, inl, inr,
}
use edge_omni.Mpu6050.{
  Pin, scl, sda, Action, direction_output, set_value, direction_input, Mpu, pulses,
  recovery_actions, mpu6050_i2c_bus_recovery,
}

-- The bus as a device sees it: the levels that the driver gives to the two lines, the clock pulses
-- for which the device still pulls the data line low, and the stop conditions seen.
pub record Bus : Type 0 where
  pub clock : Bool
  pub data_out : Bool
  pub held : ℕ
  pub stops : ℕ

abbrev pub is_free : ℕ → Bool
is_free zero = true
is_free (suc k) = false

abbrev pub next_bit : ℕ → ℕ
next_bit zero = 0
next_bit (suc k) = k

-- The data line is high when nobody pulls it low.
abbrev pub line : Bus → Bool
line b = b.data_out && is_free b.held

-- The device goes on to its next bit on a falling edge of the clock; a rise of the data line with
-- the clock high is a stop condition.
abbrev pub drive : Pin → Bool → Bus → Bus
drive scl level b = record b {
  clock = level;
  held = if b.clock && not level then next_bit b.held else b.held;
}
drive sda level b =
    let b' = record b { data_out = level } in
    if b.clock && (not (line b) && line b') then record b' { stops = b.stops + 1 } else b'

-- A pin that is an input again is pulled high.
abbrev pub act : Action → Bus → Bus
act (direction_output pin level) b = drive pin level b
act (set_value pin level) b = drive pin level b
act (direction_input pin) b = drive pin true b

abbrev pub act_all : List Action → Bus → Bus
act_all [] b = b
act_all (a ∷ rest) b = act_all rest (act a b)

-- The bus while a device waits for `k` more pulses.
abbrev pub stuck : ℕ → Bus
stuck k = record { clock = true; data_out = true; held = k; stops = 0 }

act_all-pulses :
    (n k : ℕ) (rest : List Action)
    → act_all (pulses n ++ rest) (stuck k) ≡ act_all rest (stuck (k - n))
unfolding pulses
act_all-pulses zero k rest = ap (λ m. act_all rest (stuck m)) (omega arith)
act_all-pulses (suc n) zero rest =
    act_all-pulses n 0 rest ∙ ap (λ m. act_all rest (stuck m)) (omega arith)
act_all-pulses (suc n) (suc k) rest =
    act_all-pulses n k rest ∙ ap (λ m. act_all rest (stuck m)) (omega arith)

abbrev stop_condition : List Action
stop_condition =
    set_value sda false
    ∷ set_value scl true
    ∷ set_value sda true
    ∷ direction_input scl
    ∷ direction_input sda
    ∷ []

stop_condition-stops :
    (k : ℕ) → (act_all stop_condition (stuck k)).stops ≡ (if is_free k then 1 else 0)
stop_condition-stops zero = refl
stop_condition-stops (suc k) = refl

start_stuck :
    (k : ℕ) (rest : List Action)
    → act_all
        (direction_output scl true
          ∷ direction_output sda true
          ∷ set_value scl true
          ∷ set_value sda true
          ∷ rest)
        (stuck k)
      ≡ act_all rest (stuck k)
start_stuck zero rest = refl
start_stuck (suc k) rest = refl

recovery-stops :
    (k : ℕ) → (act_all recovery_actions (stuck k)).stops ≡ (if is_free (k - 9) then 1 else 0)
unfolding recovery_actions
recovery-stops k =
    ap (λ (b : Bus). b.stops) (start_stuck k (pulses 9 ++ stop_condition))
    ∙ ap (λ (b : Bus). b.stops) (act_all-pulses 9 k stop_condition)
    ∙ stop_condition-stops (k - 9)

positive_iff : (m : ℕ) → (0 < (if is_free m then 1 else 0)) ↔ (m ≡ 0)
positive_iff zero = ((λ h. refl), (λ h. omega arith))
positive_iff (suc m) = ((λ h. absurd (omega arith)), (λ h. absurd (omega arith)))

-- A device that holds the data line for k more clock pulses sees a stop condition in the course of
-- mpu6050_i2c_bus_recovery exactly if both pins are there and k is at most nine; either way the
-- call is counted, modulo 2^32.
pub recovery_frees_iff :
    (k : ℕ) (d : Mpu)
    → let (d', actions) = mpu6050_i2c_bus_recovery d in
      ((0 < (act_all actions (stuck k)).stops)
        ↔ ((d.scl_gpio ≡ true) × (d.sda_gpio ≡ true) × (k ≤ 9)))
      × (d'.recovery_count ≡ (d.recovery_count + 1) % 2 ^ 32)
unfolding mpu6050_i2c_bus_recovery
recovery_frees_iff k d = elim (Bool-cases (not d.scl_gpio || not d.sda_gpio)) [
  | inl missing ↦ rw missing (((λ h. absurd (omega arith)), (λ h. absurd (ground arith))), refl)
  | inr there ↦
      let when = positive_iff (k - 9) in
      rw (there, recovery-stops k)
        (
          (
            (λ h. (ground arith, ground arith, omega (arith, when.0 h))),
            (λ h. when.1 (omega (arith, h.2))),
          ),
          refl,
        )
]
