-- ===== src/Ring/Bounds.antt =====
-- When the ring is well formed, and what stands in it.
use native.Mathlib.Nat.{div-add-mod, mul-le-mul_left, mod-lt, one-le-pow}
use native.Mathlib.Decide.{dec_lt}
use Prim.Native.Nat.{bit_and}
use edge_omni.Common.{
  ℕ, zero, suc, ◌+◌, ◌-◌, ◌/◌, ◌%◌, ◌^◌, ◌≤◌, ◌<◌, ◌≡◌, ◌≢◌, refl, ◌∙◌, ap, ap₂, arith, List, [],
  ◌∷◌, ◌++◌, length, get_or, set, get_or-set_self, get_or-set_ne,
}
use edge_omni.Common.Bits.{bit_and-mask, IsPowerOfTwo}
use edge_omni.Sensor.{SensorData}
use edge_omni.Ring.{Ring}

-- Indices less than `c` apart are in different slots.
pub mod-ne : (c i w : ℕ) → i < w → w < i + c → w % c ≢ i % c
mod-ne c i w h k e = elim (dec_lt (i / c) (w / c)) [
  | yes p ↦ omega (arith, div-add-mod i c, div-add-mod w c, mul-le-mul_left c p)
  | no p ↦
      let q : w / c ≤ i / c = omega arith in
      omega (arith, div-add-mod i c, div-add-mod w c, mul-le-mul_left c q)
]

-- A ring of `c` slots whose indices have not wrapped, with at most `c` elements.
pub record IsValid (c : ℕ) (rb : Ring) : Type 0 where
  pub power : IsPowerOfTwo c
  pub small : c ≤ 2 ^ 31
  pub masked : rb.mask ≡ c - 1
  pub sized : length rb.buffer ≡ c
  pub ordered : rb.read_idx ≤ rb.write_idx
  pub fits : rb.write_idx ≤ rb.read_idx + c
  pub in_word : rb.write_idx < 2 ^ 32

pub bit_and_masked : {c : ℕ} {rb : Ring} → IsValid c rb → (x : ℕ) → bit_and x rb.mask ≡ x % c
bit_and_masked {c} {rb} v x = let (k, e) = v.power in rw (v.masked, e) (bit_and-mask k x)

pub capacity_pos : {c : ℕ} {rb : Ring} → IsValid c rb → 0 < c
capacity_pos v = let (k, e) = v.power in rw e (one-le-pow k 2 (omega arith))

-- The elements from index `i` on, `n` of them, each in the slot of its index.
abbrev pub window : List SensorData → ℕ → SensorData → ℕ → ℕ → List SensorData
window buffer c d i zero = []
window buffer c d i (suc n) = get_or buffer (i % c) d ∷ window buffer c d (i + 1) n

-- What stands between the two indices, oldest first. The default is never read in a valid ring.
abbrev pub contents : ℕ → SensorData → Ring → List SensorData
contents c d rb = window rb.buffer c d rb.read_idx (rb.write_idx - rb.read_idx)

pub length-window :
    (b : List SensorData) (c : ℕ) (d : SensorData) (i n : ℕ) → length (window b c d i n) ≡ n
length-window b c d i zero = refl
length-window b c d i (suc n) = ap suc (length-window b c d (i + 1) n)

-- A write at index `w` is seen in no window that ends at `w` and is shorter than the ring.
pub window-set_outside :
    (b : List SensorData) (c : ℕ) (d x : SensorData) (i n w : ℕ)
    → i + n ≤ w
    → w < i + c
    → window (set b (w % c) x) c d i n ≡ window b c d i n
window-set_outside b c d x i zero w h k = refl
window-set_outside b c d x i (suc n) w h k =
    ap₂ ◌∷◌ (get_or-set_ne b (w % c) (i % c) x d (mod-ne c i w (omega arith) k))
      (window-set_outside b c d x (i + 1) n w (omega arith) (omega arith))

pub window_snoc :
    (b : List SensorData) (c : ℕ) (d : SensorData) (i n : ℕ)
    → window b c d i (suc n) ≡ window b c d i n ++ get_or b ((i + n) % c) d ∷ []
window_snoc b c d i zero = ap (λ j. get_or b (j % c) d ∷ []) (omega arith)
window_snoc b c d i (suc n) = ap (◌∷◌ (get_or b (i % c) d)) (
    window_snoc b c d (i + 1) n
    ∙ ap (λ j. window b c d (i + 1) n ++ get_or b (j % c) d ∷ []) (omega arith))

-- A write at the end of a window that is shorter than the ring extends it.
pub window-set_end :
    (b : List SensorData) (c : ℕ) (d x : SensorData) (i n : ℕ)
    → length b ≡ c
    → n < c
    → window (set b ((i + n) % c) x) c d i (suc n) ≡ window b c d i n ++ x ∷ []
window-set_end b c d x i n h k =
    window_snoc (set b ((i + n) % c) x) c d i n
    ∙ ap₂ (λ ys y. ys ++ y ∷ [])
        (window-set_outside b c d x i n (i + n) (omega arith) (omega arith))
        (get_or-set_self b ((i + n) % c) x d (rw h (mod-lt (i + n) (omega arith))))
