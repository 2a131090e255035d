-- ===== src/Hal/Sysfs.antt =====
-- `read_sysfs_int` of app/hal/sht30_hal.c.
use edge_omni.Common.{
  ℕ, zero, suc, ◌+◌, ◌^◌, ◌≤◌, ◌<◌, ◌≡◌, ◌∙◌, refl, ap, arith, false, Option, none, some, List, [],
  ◌∷◌, ◌++◌, ◌==◌, if◌then◌else◌, length, length-append, take,
}
use edge_omni.Common.Decimal.{print, atoi, atoi-print, length-print, magnitude}
use edge_omni.Common.Int.{ℤ}
use edge_omni.Common.Word.{u32}

-- What the reads of a file deliver, in order: no byte stands for an error and for the end.
abbrev pub File : Type 0
File = ℕ → List ℕ

-- `sizeof(buf) - 1`
abbrev pub buffer_room : ℕ
buffer_room = 31

-- The loop, with the tries that are left, the number of tries made and g_i2c_retry_total; `none`
-- is -EIO.
unfoldable pub tries : ℕ → File → ℕ → ℕ → Option ℤ × ℕ
tries zero file retries total = (none, total)
tries (suc left) file retries total =
    let text = take buffer_room (file retries) in
    let again = tries left file (retries + 1) (u32 (total + 1)) in
    if length text == 0 then again else (some (atoi text), total)

unfoldable pub read_sysfs_int : File → ℕ → Option ℤ × ℕ
unfolding tries
read_sysfs_int file total = tries 3 file 0 total

-- The first `n` reads fail.
abbrev pub FailsFor : ℕ → File → Type 0
FailsFor n file = (i : ℕ) → i < n → file i ≡ []

take_all {ℓ} : {A : Type ℓ} (n : ℕ) (xs : List A) → length xs ≤ n → take n xs ≡ xs
take_all zero [] h = refl
take_all zero (x ∷ xs) h = absurd (omega arith)
take_all (suc n) [] h = refl
take_all (suc n) (x ∷ xs) h = ap (◌∷◌ x) (take_all n xs (omega arith))

tries_after :
    (left n : ℕ) (file : File) (retries total : ℕ) (text : List ℕ)
    → n < left
    → ((i : ℕ) → i < n → file (retries + i) ≡ [])
    → file (retries + n) ≡ text
    → 0 < length text
    → length text ≤ buffer_room
    → total + n < 2 ^ 32
    → tries left file retries total ≡ (some (atoi text), total + n)
unfolding tries
tries_after zero n file retries total text h bad good some_text fits room = absurd (omega arith)
tries_after (suc left) zero file retries total text h bad good some_text fits room =
    let here : file retries ≡ text = ap file (omega arith) ∙ good in
    let filled : (length text == 0) ≡ false = ground arith in
    rw (here, take_all buffer_room text fits, filled)
      (ap (λ t. (some (atoi text), t)) (omega arith))
tries_after (suc left) (suc n) file retries total text h bad good some_text fits room =
    let empty : file retries ≡ [] = ap file (omega arith) ∙ bad 0 (omega arith) in
    let wrapped : u32 (total + 1) ≡ total + 1 = omega arith in
    rw (empty, wrapped)
      (tries_after left n file (retries + 1) (total + 1) text (omega arith)
          (λ i lt. ap file (omega arith) ∙ bad (i + 1) (omega arith)) (ap file (omega arith) ∙ good)
          some_text fits (omega arith)
        ∙ ap (λ t. (some (atoi text), t)) (omega arith))

tries_fail :
    (left : ℕ) (file : File) (retries total : ℕ)
    → ((i : ℕ) → file i ≡ [])
    → (tries left file retries total).0 ≡ none
unfolding tries
tries_fail zero file retries total bad = refl
tries_fail (suc left) file retries total bad =
    rw (bad retries) (tries_fail left file (retries + 1) (u32 (total + 1)) bad)

-- A file that shows a number on a line of its own, after fewer than three failed reads: the number
-- is returned, and every failed read is counted.
pub read_sysfs_int_number :
    (n : ℕ) (v : ℤ) (file : File) (total : ℕ)
    → n < 3
    → FailsFor n file
    → file n ≡ print v ++ 10 ∷ []
    → magnitude v < 10 ^ 10
    → total + n < 2 ^ 32
    → read_sysfs_int file total ≡ (some v, total + n)
unfolding read_sysfs_int
read_sysfs_int_number n v file total h bad good small room =
    tries_after 3 n file 0 total (print v ++ 10 ∷ []) h (λ i lt. ap file (omega arith) ∙ bad i lt)
      (ap file (omega arith) ∙ good) (omega (arith, length-append (print v) (10 ∷ [])))
      (omega (arith, length-append (print v) (10 ∷ []), length-print v)) room
    ∙ ap (λ w. (some w, total + n)) (atoi-print v (10 ∷ []) small refl)

-- A file that cannot be read is given up after three tries.
pub read_sysfs_int_broken :
    (file : File) (total : ℕ) → ((i : ℕ) → file i ≡ []) → (read_sysfs_int file total).0 ≡ none
unfolding read_sysfs_int
read_sysfs_int_broken file total bad = tries_fail 3 file 0 total bad
