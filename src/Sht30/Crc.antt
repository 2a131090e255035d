-- ===== src/Sht30/Crc.antt =====
-- The checksum of a message changes when any one byte of it changes.
use Prim.Native.Nat.{bit_xor}
use edge_omni.Common.{
  ℕ, zero, suc, ◌+◌, ◌/◌, ◌%◌, ◌<◌, ◌≡◌, ◌≢◌, refl, sym, ◌∙◌, ap, arith, Bool, true, ◌&&◌, List, [],
  ◌∷◌, ◌++◌, ltb, ◌==◌, if◌then◌else◌, All,
}
use edge_omni.Common.Xor.{xor_cancel, xor-lt, xor_comm}
use edge_omni.Sht30.{crc_bit, crc_byte, crc_from, sht30_crc8}

-- Every value of a test below `n`.
all_below : ℕ → (ℕ → Bool) → Bool
all_below zero test = true
all_below (suc n) test = test n && all_below n test

below_all : (n : ℕ) (test : ℕ → Bool) (x : ℕ) → all_below n test ≡ true → x < n → test x ≡ true
unfolding all_below
below_all zero test x h lt = absurd (omega arith)
below_all (suc n) test x h lt = ground (arith, below_all n test x)

-- A round backwards: the polynomial is odd and the shift leaves an even number.
undo_bit : ℕ → ℕ
undo_bit crc = if crc % 2 == 0 then crc / 2 else bit_xor crc 0x31 / 2 + 128

round_table : all_below 256 (λ x. undo_bit (crc_bit x) == x && ltb (crc_bit x) 256) ≡ true
unfolding all_below undo_bit crc_bit
round_table = refl

undo_bit-crc_bit : (x : ℕ) → x < 256 → (undo_bit (crc_bit x) ≡ x) × (crc_bit x < 256)
undo_bit-crc_bit x h =
    let t = below_all 256 (λ y. undo_bit (crc_bit y) == y && ltb (crc_bit y) 256) x round_table h in
    ground arith

-- A map of bytes to bytes that merges no two.
abbrev IsOneToOne : (ℕ → ℕ) → Type 0
IsOneToOne f = ((x : ℕ) → x < 256 → f x < 256) × ((x y : ℕ) → x < 256 → y < 256 → f x ≡ f y → x ≡ y)

after : (f g : ℕ → ℕ) → IsOneToOne f → IsOneToOne g → IsOneToOne (λ x. f (g x))
after f g hf hg = (
  λ x h. hf.0 (g x) (hg.0 x h),
  λ x y hx hy e. hg.1 x y hx hy (hf.1 (g x) (g y) (hg.0 x hx) (hg.0 y hy) e),
)

bit_one_to_one : IsOneToOne crc_bit
bit_one_to_one = (
  λ x h. (undo_bit-crc_bit x h).1,
  λ x y hx hy e. sym (undo_bit-crc_bit x hx).0 ∙ ap undo_bit e ∙ (undo_bit-crc_bit y hy).0,
)

twice_one_to_one : (f : ℕ → ℕ) → IsOneToOne f → IsOneToOne (λ x. f (f x))
twice_one_to_one f h = after f f h h

rounds_one_to_one :
    IsOneToOne
      (λ x. crc_bit (crc_bit (crc_bit (crc_bit (crc_bit (crc_bit (crc_bit (crc_bit x))))))))
rounds_one_to_one =
    twice_one_to_one (λ x. crc_bit (crc_bit (crc_bit (crc_bit x))))
      (twice_one_to_one (λ x. crc_bit (crc_bit x)) (twice_one_to_one crc_bit bit_one_to_one))

xor_one_to_one : (c : ℕ) → c < 256 → IsOneToOne (bit_xor c)
xor_one_to_one c hc = (
  λ x h. xor-lt 8 c x hc h,
  λ x y hx hy e. sym (xor_cancel 8 c x hc hx) ∙ ap (bit_xor c) e ∙ xor_cancel 8 c y hc hy,
)

-- Of a byte taken in, both the byte and the sum before it can be told from the sum after it.
crc_byte_new : (c : ℕ) → c < 256 → IsOneToOne (crc_byte c)
unfolding crc_byte
crc_byte_new c hc =
    after (λ x. crc_bit (crc_bit (crc_bit (crc_bit (crc_bit (crc_bit (crc_bit (crc_bit x))))))))
      (bit_xor c) rounds_one_to_one (xor_one_to_one c hc)

crc_byte_old : (b c d : ℕ) → b < 256 → c < 256 → d < 256 → crc_byte c b ≡ crc_byte d b → c ≡ d
unfolding crc_byte
crc_byte_old b c d hb hc hd e = (xor_one_to_one b hb).1 c d hc hd (
    xor_comm 8 b c hb hc
    ∙ rounds_one_to_one.1 (bit_xor c b) (bit_xor d b) (xor-lt 8 c b hc hb) (xor-lt 8 d b hd hb) e
    ∙ xor_comm 8 d b hd hb)

abbrev pub Bytes : List ℕ → Type 0
Bytes = All (λ b. b < 256)

crc_from-lt : (c : ℕ) (xs : List ℕ) → c < 256 → Bytes xs → crc_from c xs < 256
unfolding crc_from
crc_from-lt c [] hc h = hc
crc_from-lt c (x ∷ xs) hc h = crc_from-lt (crc_byte c x) xs ((crc_byte_new c hc).0 x h.0) h.1

crc_from_old :
    (c d : ℕ) (xs : List ℕ) → c < 256 → d < 256 → Bytes xs → crc_from c xs ≡ crc_from d xs → c ≡ d
unfolding crc_from
crc_from_old c d [] hc hd h e = e
crc_from_old c d (x ∷ xs) hc hd h e = crc_byte_old x c d h.0 hc hd (
    crc_from_old (crc_byte c x) (crc_byte d x) xs ((crc_byte_new c hc).0 x h.0)
      ((crc_byte_new d hd).0 x h.0) h.1 e)

changed_from :
    (c : ℕ) (xs ys : List ℕ) (a b : ℕ)
    → c < 256
    → Bytes xs
    → Bytes ys
    → a < 256
    → b < 256
    → crc_from c (xs ++ a ∷ ys) ≡ crc_from c (xs ++ b ∷ ys)
    → a ≡ b
unfolding crc_from
changed_from c [] ys a b hc hxs hys ha hb e = (crc_byte_new c hc).1 a b ha hb (
    crc_from_old (crc_byte c a) (crc_byte c b) ys ((crc_byte_new c hc).0 a ha)
      ((crc_byte_new c hc).0 b hb) hys e)
changed_from c (x ∷ xs) ys a b hc hxs hys ha hb e =
    changed_from (crc_byte c x) xs ys a b ((crc_byte_new c hc).0 x hxs.0) hxs.1 hys ha hb e

-- Two messages of bytes, of any length, that differ in one byte have different checksums.
pub sht30_crc8_single_byte :
    (xs ys : List ℕ) (a b : ℕ)
    → Bytes xs
    → Bytes ys
    → a < 256
    → b < 256
    → a ≢ b
    → sht30_crc8 (xs ++ a ∷ ys) ≢ sht30_crc8 (xs ++ b ∷ ys)
unfolding sht30_crc8
sht30_crc8_single_byte xs ys a b hxs hys ha hb n e =
    n (changed_from 0xFF xs ys a b (omega arith) hxs hys ha hb e)
