-- ===== src/Common/Decimal.antt =====
-- `%d` of printf and `atoi`, on bytes. A number of 32 bits has at most ten decimal digits.
use mathlib.Core.List.{append_assoc}
use native.Mathlib.Nat.{pow-suc}
use edge_omni.Common.{
  ℕ, zero, suc, ◌+◌, ◌-◌, ◌*◌, ◌/◌, ◌%◌, ◌^◌, ◌≤◌, ◌<◌, ◌≡◌, refl, ◌∙◌, ap, arith, Bool, true,
  false, ◌&&◌, ◌||◌, List, [], ◌∷◌, ◌++◌, ltb, leb, ◌==◌, if◌then◌else◌, Bool-cases, inl, inr,
  length, length-append,
}
use edge_omni.Common.Int.{ℤ, pos, negsuc}

-- The last `f` digits of a number, with no leading zero but for 0 itself.
unfoldable pub digits_of : ℕ → ℕ → List ℕ
digits_of zero n = []
digits_of (suc f) n =
    let high = digits_of f (n / 10) in
    if ltb n 10 then (b'0' + n) ∷ [] else high ++ (b'0' + n % 10) ∷ []

unfoldable pub print : ℤ → List ℕ
unfolding digits_of
print (pos n) = digits_of 10 n
print (negsuc n) = b'-' ∷ digits_of 10 (n + 1)

abbrev is_digit : ℕ → Bool
is_digit c = leb b'0' c && leb c b'9'

-- `isspace`: blank, and tab to carriage return.
abbrev pub is_space : ℕ → Bool
is_space c = c == b' ' || (leb 9 c && leb c 13)

-- The digits at the front of a text, with the value before them.
value_of : ℕ → List ℕ → ℕ
value_of acc [] = acc
value_of acc (c ∷ cs) =
    let rest = value_of (acc * 10 + (c - b'0')) cs in if is_digit c then rest else acc

negated : ℕ → ℤ
negated zero = pos 0
negated (suc n) = negsuc n

-- After the blanks: the sign, then the digits.
signed_value : List ℕ → ℤ
signed_value [] = pos 0
signed_value (c ∷ cs) =
    if c == b'-'
    then negated (value_of 0 cs)
    else if c == b'+'
    then pos (value_of 0 cs)
    else pos (value_of 0 (c ∷ cs))

-- `atoi`, for texts whose number an `int` holds.
pub atoi : List ℕ → ℤ
unfolding signed_value value_of negated
atoi [] = pos 0
atoi (c ∷ cs) = let rest = atoi cs in if is_space c then rest else signed_value (c ∷ cs)

-- Texts that a run of digits ends at.
abbrev pub EndsNumber : List ℕ → Type 0
EndsNumber [] = Unit {0}
EndsNumber (c ∷ cs) = is_digit c ≡ false

value_of-end : (acc : ℕ) (rest : List ℕ) → EndsNumber rest → value_of acc rest ≡ acc
unfolding value_of
value_of-end acc [] h = refl
value_of-end acc (c ∷ cs) h = rw h

value_of_digit :
    (acc d : ℕ) (cs : List ℕ) → d < 10 → value_of acc ((b'0' + d) ∷ cs) ≡ value_of (acc * 10 + d) cs
unfolding value_of
value_of_digit acc d cs h =
    let digit : is_digit (b'0' + d) ≡ true = ground arith in
    let back : b'0' + d - b'0' ≡ d = omega arith in rw (digit, back)

-- Reading the digits of `n` from the start gives `n`, and goes on with what follows.
value_of-digits :
    (f n : ℕ) (rest : List ℕ)
    → n < 10 ^ suc f
    → value_of 0 (digits_of (suc f) n ++ rest) ≡ value_of n rest
unfolding digits_of
value_of-digits zero n rest h =
    let one_digit : ltb n 10 ≡ true = ground arith in
    rw one_digit (value_of_digit 0 n rest (omega arith) ∙ ap (λ t. value_of t rest) (omega arith))
value_of-digits (suc f) n rest h = elim (Bool-cases (ltb n 10)) [
  | inl e ↦ rw e (value_of_digit 0 n rest (ground arith) ∙ ap (λ t. value_of t rest) (omega arith))
  | inr e ↦
      rw (e, append_assoc)
        (value_of-digits f (n / 10) ((b'0' + n % 10) ∷ rest) (omega (arith, pow-suc 10 (suc f)))
          ∙ value_of_digit (n / 10) (n % 10) rest (omega arith)
          ∙ ap (λ t. value_of t rest) (omega arith))
]

-- The first of the digits.
abbrev StartsNumber : List ℕ → Type 0
StartsNumber [] = ⊥
StartsNumber (c ∷ cs) = is_digit c ≡ true

StartsNumber-append : (xs ys : List ℕ) → StartsNumber xs → StartsNumber (xs ++ ys)
StartsNumber-append [] ys h = absurd h
StartsNumber-append (x ∷ xs) ys h = h

digits_of-StartsNumber : (f n : ℕ) → n < 10 ^ suc f → StartsNumber (digits_of (suc f) n)
unfolding digits_of
digits_of-StartsNumber zero n h =
    let one_digit : ltb n 10 ≡ true = ground arith in rw one_digit (ground arith)
digits_of-StartsNumber (suc f) n h = elim (Bool-cases (ltb n 10)) [
  | inl e ↦ rw e (ground arith)
  | inr e ↦ rw e (
      StartsNumber-append (digits_of (suc f) (n / 10)) ((b'0' + n % 10) ∷ [])
        (digits_of-StartsNumber f (n / 10) (omega (arith, pow-suc 10 (suc f)))))
]

atoi_of_digits : (text : List ℕ) → StartsNumber text → atoi text ≡ pos (value_of 0 text)
unfolding atoi
atoi_of_digits [] h = absurd h
atoi_of_digits (c ∷ cs) h =
    let no_space : is_space c ≡ false = ground arith in
    let no_minus : (c == b'-') ≡ false = ground arith in
    let no_plus : (c == b'+') ≡ false = ground arith in rw (no_space, no_minus, no_plus)

atoi_of_minus : (text : List ℕ) → atoi (b'-' ∷ text) ≡ negated (value_of 0 text)
unfolding atoi
atoi_of_minus text = refl

negated_suc : (n : ℕ) → negated (n + 1) ≡ negsuc n
unfolding negated
negated_suc n = ground arith

-- The magnitude of an integer.
abbrev pub magnitude : ℤ → ℕ
magnitude (pos n) = n
magnitude (negsuc n) = n + 1

-- `atoi` reads back what `%d` has printed, whatever follows the number.
pub atoi-print :
    (v : ℤ) (rest : List ℕ) → magnitude v < 10 ^ 10 → EndsNumber rest → atoi (print v ++ rest) ≡ v
unfolding print
atoi-print (pos n) rest h e =
    atoi_of_digits (digits_of 10 n ++ rest)
      (StartsNumber-append (digits_of 10 n) rest (digits_of-StartsNumber 9 n h))
    ∙ ap pos (value_of-digits 9 n rest h ∙ value_of-end n rest e)
atoi-print (negsuc n) rest h e =
    atoi_of_minus (digits_of 10 (n + 1) ++ rest)
    ∙ ap negated (value_of-digits 9 (n + 1) rest h ∙ value_of-end (n + 1) rest e)
    ∙ negated_suc n

pub length-digits_of : (f n : ℕ) → length (digits_of f n) ≤ f
unfolding digits_of
length-digits_of zero n = omega arith
length-digits_of (suc f) n = elim (Bool-cases (ltb n 10)) [
  | inl e ↦ rw e (omega arith)
  | inr e ↦ rw e (
      omega (
        arith,
        length-digits_of f (n / 10),
        length-append (digits_of f (n / 10)) ((b'0' + n % 10) ∷ []),
      ))
]

pub length-print : (v : ℤ) → length (print v) ≤ 11
unfolding print
length-print (pos n) = omega (arith, length-digits_of 10 n)
length-print (negsuc n) = omega (arith, length-digits_of 10 (n + 1))
