-- ===== src/Sht30/Work.antt =====
-- What a run of the work handler may do to the reading.

use edge_omni.Common.{
  ℕ, ◌≡◌, ◌≢◌, ◌⊎◌, ◌∙◌, sym, inl, inr, refl, arith, true, false, List, [], ◌∷◌, ◌==◌, ==_iff,
  ==_ne,
}
use edge_omni.Common.Int.{ℤ, pos}
use edge_omni.Sht30.{
  Reading, temp_crc_error, humidity_crc_error, measured, work_handler, sht30_crc8, temp_of,
  humidity_of, be16,
}
use edge_omni.Sht30.Crc.{Bytes, sht30_crc8_single_byte}

-- On every path the work is scheduled again, and every path but the straight one leaves the
-- reading as it was.
pub work_handler_failure :
    (r : Reading) (sent received : ℤ) (buf : List ℕ)
    → let (outcome, r', scheduled) = work_handler r sent received buf in
      (scheduled ≡ true) × ((outcome ≡ measured) ⊎ (r' ≡ r))
unfolding work_handler
work_handler_failure r sent received buf = ground arith

-- A frame as the sensor sends it: two words, each with its checksum.
abbrev pub frame : ℕ → ℕ → ℕ → ℕ → List ℕ
frame t₀ t₁ h₀ h₁ = t₀ ∷ t₁ ∷ sht30_crc8 (t₀ ∷ t₁ ∷ []) ∷ h₀ ∷ h₁ ∷ sht30_crc8 (h₀ ∷ h₁ ∷ []) ∷ []

-- A complete transfer of an intact frame is measured.
pub intact_frame-measured :
    (r : Reading) (t₀ t₁ h₀ h₁ : ℕ)
    → work_handler r (pos 2) (pos 6) (frame t₀ t₁ h₀ h₁) ≡ (
      measured,
      record { temp = temp_of (be16 t₀ t₁); humidity = humidity_of (be16 h₀ h₁); valid = true },
      true,
    )
unfolding work_handler
intact_frame-measured r t₀ t₁ h₀ h₁ = ground arith

word_error :
    (a b a' b' : ℕ)
    → Bytes (a ∷ b ∷ a' ∷ b' ∷ [])
    → ((a ≢ a') × (b ≡ b')) ⊎ ((a ≡ a') × (b ≢ b'))
    → sht30_crc8 (a' ∷ b' ∷ []) ≢ sht30_crc8 (a ∷ b ∷ [])
word_error a b a' b' h (inl d) =
    rw (← d.1)
      (sht30_crc8_single_byte [] (b ∷ []) a' a tt (h.1.0, tt) h.1.1.0 h.0 (λ e. d.0 (sym e)))
word_error a b a' b' h (inr d) =
    rw (← d.0)
      (sht30_crc8_single_byte (a ∷ []) [] b' b (h.0, tt) tt h.1.1.1.0 h.1.0 (λ e. d.1 (sym e)))

-- Of a word `a b` with the sum `c`, one byte or the sum has changed on the bus.
abbrev pub OneWrong : (a b c a' b' c' : ℕ) → Type 0
OneWrong a b c a' b' c' =
    ((a ≢ a') × (b ≡ b') × (c ≡ c'))
    ⊎ ((a ≡ a') × (b ≢ b') × (c ≡ c'))
    ⊎ ((a ≡ a') × (b ≡ b') × (c ≢ c'))

mismatch :
    (a b c a' b' c' : ℕ)
    → Bytes (a ∷ b ∷ a' ∷ b' ∷ [])
    → c ≡ sht30_crc8 (a ∷ b ∷ [])
    → OneWrong a b c a' b' c'
    → (sht30_crc8 (a' ∷ b' ∷ []) == c') ≡ false
mismatch a b c a' b' c' h e (inl (n, p, q)) =
    ==_ne _ _ (rw (← q, e) (word_error a b a' b' h (inl (n, p))))
mismatch a b c a' b' c' h e (inr (inl (p, n, q))) =
    ==_ne _ _ (rw (← q, e) (word_error a b a' b' h (inr (p, n))))
mismatch a b c a' b' c' h e (inr (inr (p, q, n))) = ==_ne _ _ (λ s. n (e ∙ rw (p, q) s))

-- A frame whose temperature word has one wrong byte or a wrong checksum is rejected, whatever
-- follows it, and the reading is kept.
pub temp_error_rejected :
    (r : Reading) (a b c a' b' c' h₀ h₁ h₂ : ℕ)
    → Bytes (a ∷ b ∷ a' ∷ b' ∷ [])
    → c ≡ sht30_crc8 (a ∷ b ∷ [])
    → OneWrong a b c a' b' c'
    → work_handler r (pos 2) (pos 6) (a' ∷ b' ∷ c' ∷ h₀ ∷ h₁ ∷ h₂ ∷ []) ≡ (temp_crc_error, r, true)
unfolding work_handler
temp_error_rejected r a b c a' b' c' h₀ h₁ h₂ h e d = rw (mismatch a b c a' b' c' h e d)

-- A frame whose temperature word is intact and whose humidity word has one wrong byte or a wrong
-- checksum is rejected, and the reading is kept.
pub humidity_error_rejected :
    (r : Reading) (t₀ t₁ a b c a' b' c' : ℕ)
    → Bytes (a ∷ b ∷ a' ∷ b' ∷ [])
    → c ≡ sht30_crc8 (a ∷ b ∷ [])
    → OneWrong a b c a' b' c'
    → work_handler r (pos 2) (pos 6) (t₀ ∷ t₁ ∷ sht30_crc8 (t₀ ∷ t₁ ∷ []) ∷ a' ∷ b' ∷ c' ∷ [])
      ≡ (humidity_crc_error, r, true)
unfolding work_handler
humidity_error_rejected r t₀ t₁ a b c a' b' c' h e d =
    rw ((==_iff (sht30_crc8 (t₀ ∷ t₁ ∷ [])) _).1 refl, mismatch a b c a' b' c' h e d)
