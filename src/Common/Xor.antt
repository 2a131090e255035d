-- ===== src/Common/Xor.antt =====
-- `^` on native numbers: it cancels, and keeps to the width of its arguments.
use Prim.Native.Nat.{bit_xor, bit_xor-bitwise, differ}
use native.Mathlib.Nat.{pow-suc}
use edge_omni.Common.{ℕ, zero, suc, ◌+◌, ◌*◌, ◌/◌, ◌%◌, ◌^◌, ◌<◌, ◌≡◌, refl, ◌∙◌, arith}
use edge_omni.Common.Bits.{lowest_digit}

pub bit_xor_digit : (a b : ℕ) → bit_xor a b ≡ bit_xor (a / 2) (b / 2) * 2 + differ (a % 2) (b % 2)
bit_xor_digit zero b = simp bit_xor-bitwise (omega arith)
bit_xor_digit (suc a) b = simp bit_xor-bitwise (lowest_digit (λ t. t) differ a b)

differ_cancel : (x y : ℕ) → x < 2 → y < 2 → (differ x (differ x y) ≡ y) × (differ x y < 2)
differ_cancel zero y hx hy = (refl, hy)
differ_cancel (suc zero) zero hx hy = (refl, omega arith)
differ_cancel (suc zero) (suc zero) hx hy = (refl, omega arith)
differ_cancel (suc zero) (suc (suc y)) hx hy = absurd (omega arith)
differ_cancel (suc (suc x)) y hx hy = absurd (omega arith)

digit_of : (q d : ℕ) → d < 2 → ((q * 2 + d) / 2 ≡ q) × ((q * 2 + d) % 2 ≡ d)
digit_of q d h = (omega arith, omega arith)

-- By induction on a width that holds both numbers.
xor_cancel_width :
    (k a b : ℕ) → a < 2 ^ k → b < 2 ^ k → (bit_xor a (bit_xor a b) ≡ b) × (bit_xor a b < 2 ^ k)
xor_cancel_width zero a b ha hb =
    let za : a ≡ 0 = omega arith in let zb : b ≡ 0 = omega arith in rw (za, zb) (refl, omega arith)
xor_cancel_width (suc k) a b ha hb =
    let (cancels, small) =
      xor_cancel_width k (a / 2) (b / 2) (omega (arith, pow-suc 2 k))
        (omega (arith, pow-suc 2 k)) in
    let low = differ_cancel (a % 2) (b % 2) (omega arith) (omega arith) in
    let (top, bottom) = digit_of (bit_xor (a / 2) (b / 2)) (differ (a % 2) (b % 2)) low.1 in
    (
      bit_xor_digit a (bit_xor a b)
          ∙ rw (bit_xor_digit a b, top, bottom, cancels, low.0) (omega arith),
      rw (bit_xor_digit a b) (omega (arith, pow-suc 2 k, low.1)),
    )

pub xor_cancel : (k a b : ℕ) → a < 2 ^ k → b < 2 ^ k → bit_xor a (bit_xor a b) ≡ b
xor_cancel k a b ha hb = (xor_cancel_width k a b ha hb).0

pub xor-lt : (k a b : ℕ) → a < 2 ^ k → b < 2 ^ k → bit_xor a b < 2 ^ k
xor-lt k a b ha hb = (xor_cancel_width k a b ha hb).1

differ_comm : (x y : ℕ) → x < 2 → y < 2 → differ x y ≡ differ y x
differ_comm zero zero hx hy = refl
differ_comm zero (suc zero) hx hy = refl
differ_comm zero (suc (suc y)) hx hy = absurd (omega arith)
differ_comm (suc zero) zero hx hy = refl
differ_comm (suc zero) (suc zero) hx hy = refl
differ_comm (suc zero) (suc (suc y)) hx hy = absurd (omega arith)
differ_comm (suc (suc x)) y hx hy = absurd (omega arith)

pub xor_comm : (k a b : ℕ) → a < 2 ^ k → b < 2 ^ k → bit_xor a b ≡ bit_xor b a
xor_comm zero a b ha hb =
    let za : a ≡ 0 = omega arith in let zb : b ≡ 0 = omega arith in rw (za, zb)
xor_comm (suc k) a b ha hb = omega (
  arith,
  bit_xor_digit a b,
  bit_xor_digit b a,
  xor_comm k (a / 2) (b / 2) (omega (arith, pow-suc 2 k)) (omega (arith, pow-suc 2 k)),
  differ_comm (a % 2) (b % 2) (omega arith) (omega arith),
)
