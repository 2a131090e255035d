-- ===== src/Common/Format.antt =====
-- printf: `%d`, `%s`, and `%.1f` of a number of thousandths, in the arithmetic of a double.
use Prim.Native.String.{String}
use native.Mathlib.Nat.{mod-lt, div-add-mod', mul-le-mul_right, pow-le-pow_right}
use native.Mathlib.Decide.{dec_lt}
use edge_omni.Common.{
  ℕ, zero, suc, ◌+◌, ◌-◌, ◌*◌, ◌/◌, ◌%◌, ◌^◌, ◌≤◌, ◌<◌, ◌≡◌, refl, ◌∙◌, ap, arith, List, [], ◌∷◌,
  ◌++◌, ltb, if◌then◌else◌, Bool-cases, ◌⊎◌, inl, inr, length, length-append, take,
}
use edge_omni.Common.Int.{ℤ, pos, negsuc}
use edge_omni.Common.Decimal.{digits_of, length-digits_of, print, length-print, magnitude}
use edge_omni.Common.Text.{bytes}

-- The quotient rounded to the nearest, to an even one between two.
abbrev pub rounded : (n d : ℕ) → ℕ
rounded n d =
    if ltb (2 * (n % d)) d
    then n / d
    else if ltb d (2 * (n % d))
    then n / d + 1
    else n / d + n / d % 2

-- The exponent that leaves the quotient `n / 1000` the 53 bits of a double, `k` at most.
pub exponent : (k n : ℕ) → ℕ
exponent zero n = zero
exponent (suc k) n =
    let lower = exponent k n in if ltb (n * 2 ^ suc k) (1000 * 2 ^ 53) then suc k else lower

-- `n / 1000.0` is `mantissa n / 2 ^ exponent 62 n`.
pub mantissa : ℕ → ℕ
unfolding exponent
mantissa n = rounded (n * 2 ^ exponent 62 n) 1000

-- The tenths that `%.1f` shows of it.
pub tenths_of : ℕ → ℕ
unfolding mantissa exponent
tenths_of n = rounded (mantissa n * 10) (2 ^ exponent 62 n)

unfoldable pub print_tenths : ℤ → List ℕ
unfolding tenths_of
print_tenths v =
    let t = tenths_of (magnitude v) in
    let text = digits_of 10 (t / 10) ++ b'.' ∷ digits_of 1 (t % 10) in
    elim v [ pos n ↦ text | negsuc n ↦ b'-' ∷ text ]

-- `"%.1f"` of 23.450, 0.250, -0.040, 0.350 and 25.05.
tenths_shown :
    (print_tenths (pos 23450) ≡ bytes "23.4")
    × (print_tenths (pos 250) ≡ bytes "0.2")
    × (print_tenths (negsuc 39) ≡ bytes "-0.0")
    × (print_tenths (pos 350) ≡ bytes "0.3")
    × (print_tenths (pos 25050) ≡ bytes "25.1")
unfolding print_tenths digits_of bytes mantissa exponent
tenths_shown = (refl, refl, refl, refl, refl)

near_cases :
    (q m d r : ℕ)
    → m < d
    → ((2 * m < d) × (r ≡ q))
      ⊎ (((d < 2 * m) × (r ≡ q + 1)) ⊎ ((2 * m ≡ d) × ((r ≡ q) ⊎ (r ≡ q + 1))))
    → (2 * (r * d) ≤ 2 * (q * d + m) + d) × (2 * (q * d + m) ≤ 2 * (r * d) + d)
near_cases q m d r h cases =
    let next : (q + 1) * d ≡ q * d + d = omega arith in ground (arith, next)

rounded_cases :
    (n d : ℕ)
    → ((2 * (n % d) < d) × (rounded n d ≡ n / d))
      ⊎ (((d < 2 * (n % d)) × (rounded n d ≡ n / d + 1))
          ⊎ ((2 * (n % d) ≡ d) × ((rounded n d ≡ n / d) ⊎ (rounded n d ≡ n / d + 1))))
rounded_cases n d = ground arith

exponent_high : (k n low : ℕ) → n * 2 ^ low < 1000 * 2 ^ 53 → low ≤ k → low ≤ exponent k n
unfolding exponent
exponent_high zero n low small h = h
exponent_high (suc k) n low small h = elim (Bool-cases (ltb (n * 2 ^ suc k) (1000 * 2 ^ 53))) [
  | inl e ↦ rw e h
  | inr e ↦ elim (dec_lt k low) [
    | yes p ↦
        let same : low ≡ suc k = omega arith in
        absurd (ground (arith, ap (λ j. ltb (n * 2 ^ j) (1000 * 2 ^ 53)) same ∙ e))
    | no p ↦ rw e (exponent_high k n low small (omega arith))
  ]
]

rounded_near :
    (n d : ℕ) → 0 < d → (2 * (rounded n d * d) ≤ 2 * n + d) × (2 * n ≤ 2 * (rounded n d * d) + d)
rounded_near n d h =
    let (low, high) = near_cases (n / d) (n % d) d (rounded n d) (mod-lt n h) (rounded_cases n d) in
    let whole = div-add-mod' n d in (omega (arith, low, whole), omega (arith, high, whole))

-- What is left of an error of half a unit in the mantissa and half a tenth.
tenth_close :
    (t n m p : ℕ)
    → 2 ^ 31 ≤ p
    → 2 * (m * 1000) ≤ 2 * (n * p) + 1000
    → 2 * (n * p) ≤ 2 * (m * 1000) + 1000
    → 2 * (t * p) ≤ 2 * (m * 10) + p
    → 2 * (m * 10) ≤ 2 * (t * p) + p
    → (100 * t ≤ n + 50) × (n ≤ 100 * t + 50)
tenth_close t n m p large m_low m_high t_low t_high = (
  elim (dec_lt (n + 50) (100 * t)) [
    | yes over ↦
        let times : (n + 51) * p ≤ 100 * t * p = mul-le-mul_right p (omega arith) in
        absurd (omega (arith, times))
    | no fine ↦ omega arith
  ],
  elim (dec_lt (100 * t + 50) n) [
    | yes under ↦
        let times : (100 * t + 51) * p ≤ n * p = mul-le-mul_right p (omega arith) in
        absurd (omega (arith, times))
    | no fine ↦ omega arith
  ],
)

-- What `%.1f` shows of a number of thousandths, up to 2^31 of them, is within 50 of it.
pub tenths_near : (n : ℕ) → n ≤ 2 ^ 31 → (100 * tenths_of n ≤ n + 50) × (n ≤ 100 * tenths_of n + 50)
unfolding tenths_of mantissa
tenths_near n h =
    let e : ℕ = exponent 62 n in
    let high : 31 ≤ e = exponent_high 62 n 31 (omega arith) (omega arith) in
    let large : 2 ^ 31 ≤ 2 ^ e = pow-le-pow_right (omega arith) high in
    let (m_low, m_high) = rounded_near (n * 2 ^ e) 1000 (omega arith) in
    let (t_low, t_high) = rounded_near (mantissa n * 10) (2 ^ e) (omega (arith, large)) in
    tenth_close (tenths_of n) n (mantissa n) (2 ^ e) large m_low m_high t_low t_high

shown_fits : (t : ℕ) → length (digits_of 10 (t / 10) ++ b'.' ∷ digits_of 1 (t % 10)) ≤ 12
shown_fits t = omega (
  arith,
  length-append (digits_of 10 (t / 10)) (b'.' ∷ digits_of 1 (t % 10)),
  length-digits_of 10 (t / 10),
  length-digits_of 1 (t % 10),
)

pub length-print_tenths : (v : ℤ) → length (print_tenths v) ≤ 13
unfolding print_tenths
length-print_tenths (pos n) = omega (arith, shown_fits (tenths_of n))
length-print_tenths (negsuc n) = omega (arith, shown_fits (tenths_of (n + 1)))

-- What stands in a format: text, `%d`, `%s` and `%.1f`, with its argument.
pub data Piece : Type 0 where
  text : String → Piece
  number thousandths : ℤ → Piece
  string : List ℕ → Piece

unfoldable pub render : List Piece → List ℕ
render [] = []
render (text s ∷ ps) = bytes s ++ render ps
render (number v ∷ ps) = print v ++ render ps
render (thousandths v ∷ ps) = print_tenths v ++ render ps
render (string t ∷ ps) = t ++ render ps

-- The bytes that `snprintf` writes in front of its byte 0, and the length that it returns.
unfoldable pub snprintf : ℕ → List Piece → List ℕ × ℕ
unfolding render
snprintf size ps = let whole = render ps in (take (size - 1) whole, length whole)

-- The most that a format can come to.
abbrev pub most : List Piece → ℕ
most [] = 0
most (text s ∷ ps) = length (bytes s) + most ps
most (number v ∷ ps) = 11 + most ps
most (thousandths v ∷ ps) = 13 + most ps
most (string t ∷ ps) = length t + most ps

pub length-render : (ps : List Piece) → length (render ps) ≤ most ps
unfolding render
length-render [] = omega arith
length-render (text s ∷ ps) = omega (arith, length-append (bytes s) (render ps), length-render ps)
length-render (number v ∷ ps) =
    omega (arith, length-append (print v) (render ps), length-print v, length-render ps)
length-render (thousandths v ∷ ps) =
    omega
      (arith, length-append (print_tenths v) (render ps), length-print_tenths v, length-render ps)
length-render (string t ∷ ps) = omega (arith, length-append t (render ps), length-render ps)

pub take-all {ℓ} : {A : Type ℓ} (n : ℕ) (xs : List A) → length xs ≤ n → take n xs ≡ xs
take-all zero [] h = refl
take-all zero (x ∷ xs) h = absurd (omega arith)
take-all (suc n) [] h = refl
take-all (suc n) (x ∷ xs) h = ap (◌∷◌ x) (take-all n xs (omega arith))

-- A text that fits is written whole.
pub snprintf_fits :
    (size : ℕ) (ps : List Piece)
    → length (render ps) < size
    → snprintf size ps ≡ (render ps, length (render ps))
unfolding snprintf
snprintf_fits size ps h =
    ap (λ t. (t, length (render ps))) (take-all (size - 1) (render ps) (omega arith))
