-- ===== src/Common/Bits.antt =====
-- `&` with a mask of low ones and `|` of disjoint fields, as arithmetic, at every width.
use Prim.Native.Nat.{min, max, digits, bitwise, bit_and, bit_or, bit_and-bitwise, bit_or-bitwise}
use native.Mathlib.Nat.{pow-suc, one-le-pow, le_refl, mod_self}
use edge_omni.Common.{
  ℕ, zero, suc, ◌+◌, ◌-◌, ◌*◌, ◌/◌, ◌%◌, ◌^◌, ◌≤◌, ◌<◌, ◌≡◌, refl, ap, arith, true, false, ◌∙◌,
  ◌==◌, Bool-cases, inl, inr,
}

-- Two bytes, the most significant first.
abbrev pub be16 : ℕ → ℕ → ℕ
be16 high low = bit_or (high * 2 ^ 8) low

-- Any two amounts of fuel that are enough give the same digits.
module _ (low : ℕ → ℕ) (op : ℕ → ℕ → ℕ) where
  fuel_agrees : (f g a b : ℕ) → a ≤ f → a ≤ g → digits low op f a b ≡ digits low op g a b
  fuel_agrees zero zero zero b hf hg = refl
  fuel_agrees zero (suc g) zero b hf hg = refl
  fuel_agrees (suc f) zero zero b hf hg = refl
  fuel_agrees (suc f) (suc g) zero b hf hg = refl
  fuel_agrees zero g (suc a) b hf hg = absurd (omega arith)
  fuel_agrees (suc f) zero (suc a) b hf hg = absurd (omega arith)
  fuel_agrees (suc f) (suc g) (suc a) b hf hg =
      ap (λ t. t * 2 + op (suc a % 2) (b % 2))
        (fuel_agrees f g (suc a / 2) (b / 2) (omega arith) (omega arith))

  pub lowest_digit :
      (a b : ℕ)
      → bitwise low op (suc a) b ≡ bitwise low op (suc a / 2) (b / 2) * 2 + op (suc a % 2) (b % 2)
  lowest_digit a b =
      ap (λ t. t * 2 + op (suc a % 2) (b % 2))
        (fuel_agrees a (suc a / 2) (suc a / 2) (b / 2) (omega arith) (le_refl _))

pub bit_and_digit : (a b : ℕ) → bit_and a b ≡ bit_and (a / 2) (b / 2) * 2 + min (a % 2) (b % 2)
bit_and_digit zero b = simp bit_and-bitwise (omega arith)
bit_and_digit (suc a) b = simp bit_and-bitwise (lowest_digit (λ t. 0) min a b)

pub bit_or_digit : (a b : ℕ) → bit_or a b ≡ bit_or (a / 2) (b / 2) * 2 + max (a % 2) (b % 2)
bit_or_digit zero b = simp bit_or-bitwise (omega arith)
bit_or_digit (suc a) b = simp bit_or-bitwise (lowest_digit (λ t. t) max a b)

and-zero_below : (f a : ℕ) → a ≤ f → bit_and a 0 ≡ 0
and-zero_below f zero h = refl
and-zero_below zero (suc a) h = absurd (omega arith)
and-zero_below (suc f) (suc a) h =
    omega (arith, bit_and_digit (suc a) 0, and-zero_below f (suc a / 2) (omega arith))

pub bit_and-zero : (a : ℕ) → bit_and a 0 ≡ 0
bit_and-zero a = and-zero_below a a (le_refl a)

or-zero_below : (f a : ℕ) → a ≤ f → bit_or a 0 ≡ a
or-zero_below f zero h = refl
or-zero_below zero (suc a) h = absurd (omega arith)
or-zero_below (suc f) (suc a) h =
    omega (arith, bit_or_digit (suc a) 0, or-zero_below f (suc a / 2) (omega arith))

pub bit_or-zero : (a : ℕ) → bit_or a 0 ≡ a
bit_or-zero a = or-zero_below a a (le_refl a)

and-self_below : (f a : ℕ) → a ≤ f → bit_and a a ≡ a
and-self_below f zero h = refl
and-self_below zero (suc a) h = absurd (omega arith)
and-self_below (suc f) (suc a) h =
    omega (arith, bit_and_digit (suc a) (suc a), and-self_below f (suc a / 2) (omega arith))

pub bit_and_self : (a : ℕ) → bit_and a a ≡ a
bit_and_self a = and-self_below a a (le_refl a)

-- The mask of `k` low ones keeps the `k` low digits of `q * 2 ^ k + r`.
mask_keeps : (k q r : ℕ) → r < 2 ^ k → bit_and (q * 2 ^ k + r) (2 ^ k - 1) ≡ r
mask_keeps zero q r h = rw (bit_and-zero) (omega arith)
mask_keeps (suc k) q r h = ground (
  arith,
  bit_and_digit (q * 2 ^ suc k + r) (2 ^ suc k - 1),
  pow-suc 2 k,
  ap (λ (t : ℕ). q * t) (pow-suc 2 k),
  mask_keeps k q (r / 2) (omega (arith, pow-suc 2 k)),
)

-- `a & (2^k - 1)` is the remainder by `2^k`.
pub bit_and-mask : (k a : ℕ) → bit_and a (2 ^ k - 1) ≡ a % 2 ^ k
bit_and-mask k a = ground (arith, one-le-pow k 2, mask_keeps k (a / 2 ^ k) (a % 2 ^ k))

-- `(q << k) | r` is a sum where `r` fits in `k` bits.
pub bit_or-shifted : (k q r : ℕ) → r < 2 ^ k → bit_or (q * 2 ^ k) r ≡ q * 2 ^ k + r
bit_or-shifted zero q r h = ground (arith, bit_or-zero q)
bit_or-shifted (suc k) q r h = ground (
  arith,
  bit_or_digit (q * 2 ^ suc k) r,
  pow-suc 2 k,
  ap (λ (t : ℕ). q * t) (pow-suc 2 k),
  bit_or-shifted k q (r / 2) (omega (arith, pow-suc 2 k)),
)

-- The test `c != 0 && (c & (c - 1)) == 0` passes at powers of two only, and at each of them.
abbrev pub IsPowerOfTwo : ℕ → Type 0
IsPowerOfTwo c = (k : ℕ) × (c ≡ 2 ^ k)

power_below : (f c : ℕ) → c ≤ f → 0 < c → bit_and c (c - 1) ≡ 0 → IsPowerOfTwo c
power_below zero c h p e = absurd (omega arith)
power_below (suc f) c h p e = elim (Bool-cases (c % 2 == 0)) [
  | inl even ↦
      let (k, eq) = power_below f (c / 2) (omega arith) (ground arith) (half even) in
      (suc k, ground (arith, pow-suc 2 k))
  | inr odd ↦ (
    0,
    ground (arith, bit_and_digit c (c - 1), bit_and_self (c / 2), ap (bit_and (c / 2)) (ends odd)),
  )
]
  where
    below : (c % 2 == 0) ≡ true → (c - 1) / 2 ≡ c / 2 - 1
    below even = ground arith

    half : (c % 2 == 0) ≡ true → bit_and (c / 2) (c / 2 - 1) ≡ 0
    half even = ground (arith, bit_and_digit c (c - 1), ap (bit_and (c / 2)) (below even))

    ends : (c % 2 == 0) ≡ false → (c - 1) / 2 ≡ c / 2
    ends odd = ground arith

pub IsPowerOfTwo-of_and : (c : ℕ) → 0 < c → bit_and c (c - 1) ≡ 0 → IsPowerOfTwo c
IsPowerOfTwo-of_and c = power_below c c (le_refl c)

pub and-pred_two_pow : (k : ℕ) → bit_and (2 ^ k) (2 ^ k - 1) ≡ 0
and-pred_two_pow k = bit_and-mask k (2 ^ k) ∙ mod_self (2 ^ k)
