-- ===== src/Metrics/Sort.antt =====
-- The two nested loops of calc_latency_percentile sort.
use edge_omni.Common.{
  ℕ, zero, suc, ◌+◌, ◌≤◌, ◌≡◌, refl, ap, ◌∙◌, arith, Bool, true, false, List, [], ◌∷◌,
  if◌then◌else◌, length, All, Bool-cases, inl, inr,
}
use edge_omni.Common.Int.{ℤ, ltb_ℤ, ◌≤ℤ◌, ltb_ℤ→<ℤ, not_ltb_ℤ→≤ℤ}
use edge_omni.Metrics.{pass, sort_rounds}

abbrev pub IsSorted : List ℤ → Type 0
IsSorted [] = Unit {0}
IsSorted (x ∷ xs) = All (λ y. x ≤ℤ y) xs × IsSorted xs

-- How many elements pass a test: with every test, the elements up to their order.
abbrev pub count_where : (ℤ → Bool) → List ℤ → ℕ
count_where p [] = 0
count_where p (x ∷ xs) = (if p x then 1 else 0) + count_where p xs

count_where-pass :
    (p : ℤ → Bool) (x : ℤ) (ys : List ℤ)
    → count_where p ((pass x ys).0 ∷ (pass x ys).1) ≡ count_where p (x ∷ ys)
unfolding pass
count_where-pass p x [] = refl
count_where-pass p x (y ∷ ys) = elim (Bool-cases (ltb_ℤ y x)) [
  | inl e ↦ rw e (omega (arith, count_where-pass p y ys))
  | inr e ↦ rw e (omega (arith, count_where-pass p x ys))
]

length-pass : (x : ℤ) (ys : List ℤ) → length (pass x ys).1 ≡ length ys
unfolding pass
length-pass x [] = refl
length-pass x (y ∷ ys) = ap suc (length-pass (if ltb_ℤ y x then y else x) ys)

-- The pass leaves the least element in front.
pass-le_head : (x : ℤ) (ys : List ℤ) → (pass x ys).0 ≤ℤ x
unfolding pass
pass-le_head x [] = omega arith
pass-le_head x (y ∷ ys) = elim (Bool-cases (ltb_ℤ y x)) [
  | inl e ↦ rw e (omega (arith, pass-le_head y ys, ltb_ℤ→<ℤ y x e))
  | inr e ↦ rw e (pass-le_head x ys)
]

pass_swap :
    (x y : ℤ) (ys : List ℤ)
    → ltb_ℤ y x ≡ true
    → pass x (y ∷ ys) ≡ ((pass y ys).0, x ∷ (pass y ys).1)
unfolding pass
pass_swap x y ys e = rw e

pass_keep :
    (x y : ℤ) (ys : List ℤ)
    → ltb_ℤ y x ≡ false
    → pass x (y ∷ ys) ≡ ((pass x ys).0, y ∷ (pass x ys).1)
unfolding pass
pass_keep x y ys e = rw e

pass_least : (x : ℤ) (ys : List ℤ) → All (λ z. (pass x ys).0 ≤ℤ z) (pass x ys).1
pass_least x [] = unfold pass in tt
pass_least x (y ∷ ys) = elim (Bool-cases (ltb_ℤ y x)) [
  | inl e ↦
      rw (pass_swap x y ys e) (omega (arith, pass-le_head y ys, ltb_ℤ→<ℤ y x e), pass_least y ys)
  | inr e ↦
      rw (pass_keep x y ys e)
        (omega (arith, pass-le_head x ys, not_ltb_ℤ→≤ℤ y x e), pass_least x ys)
]

pub length-sort_rounds : (n : ℕ) (l : List ℤ) → length (sort_rounds n l) ≡ length l
unfolding sort_rounds
length-sort_rounds zero l = refl
length-sort_rounds (suc n) [] = refl
length-sort_rounds (suc n) (x ∷ xs) = ap suc (length-sort_rounds n (pass x xs).1 ∙ length-pass x xs)

-- The loops move elements and lose none.
pub count_where-sort_rounds :
    (p : ℤ → Bool) (n : ℕ) (l : List ℤ) → count_where p (sort_rounds n l) ≡ count_where p l
unfolding sort_rounds
count_where-sort_rounds p zero l = refl
count_where-sort_rounds p (suc n) [] = refl
count_where-sort_rounds p (suc n) (x ∷ xs) =
    ap (λ k. (if p (pass x xs).0 then 1 else 0) + k) (count_where-sort_rounds p n (pass x xs).1)
    ∙ count_where-pass p x xs

-- The loops only move elements, so that what holds of all of them stays so.
module _ (P : ℤ → Type 0) where
  pub All-pass : (x : ℤ) (ys : List ℤ) → P x → All P ys → P (pass x ys).0 × All P (pass x ys).1
  unfolding pass
  All-pass x [] h hs = (h, tt)
  All-pass x (y ∷ ys) h hs = elim (Bool-cases (ltb_ℤ y x)) [
    | inl e ↦ rw e (let q = All-pass y ys hs.0 hs.1 in (q.0, (h, q.1)))
    | inr e ↦ rw e (let q = All-pass x ys h hs.1 in (q.0, (hs.0, q.1)))
  ]

  pub All-sort_rounds : (n : ℕ) (l : List ℤ) → All P l → All P (sort_rounds n l)
  unfolding sort_rounds
  All-sort_rounds zero l h = h
  All-sort_rounds (suc n) [] h = tt
  All-sort_rounds (suc n) (x ∷ xs) h =
      let q = All-pass x xs h.0 h.1 in (q.0, All-sort_rounds n (pass x xs).1 q.1)

-- As many rounds as the list has elements, less one, are enough.
pub sort_rounds-IsSorted : (n : ℕ) (l : List ℤ) → length l ≤ n + 1 → IsSorted (sort_rounds n l)
unfolding sort_rounds
sort_rounds-IsSorted zero [] h = tt
sort_rounds-IsSorted zero (x ∷ []) h = (tt, tt)
sort_rounds-IsSorted zero (x ∷ y ∷ l) h = absurd (omega arith)
sort_rounds-IsSorted (suc n) [] h = tt
sort_rounds-IsSorted (suc n) (x ∷ xs) h = (
  All-sort_rounds (λ z. (pass x xs).0 ≤ℤ z) n (pass x xs).1 (pass_least x xs),
  sort_rounds-IsSorted n (pass x xs).1 (omega (arith, length-pass x xs)),
)
