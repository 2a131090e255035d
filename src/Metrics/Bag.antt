-- ===== src/Metrics/Bag.antt =====
-- The percentiles as a function of the latencies with no order among them.
use mathlib.Core.Quot
use mathlib.Core.Quot.{Quot}
use native.Mathlib.Decide.{ℕ_discrete}
use edge_omni.Common.{
  ℕ, ◌+◌, ◌-◌, ◌*◌, ◌/◌, ◌≤◌, ◌<◌, ◌≡◌, refl, sym, ap, ap₂, ◌∙◌, arith, Bool, true, false, List, [],
  ◌∷◌, ◌==◌, if◌then◌else◌, length, length-take, get_or, Bool-cases, inl, inr,
}
use edge_omni.Common.Int.{ℤ, pos, ◌<ℤ◌, ltb_ℤ, ltb_ℤ→<ℤ, not_ltb_ℤ→≤ℤ, ≤ℤ_antisymm}
use edge_omni.Metrics.{Window, sort_rounds, clamped, latency_window_size, calc_latency_percentile}
use edge_omni.Metrics.Sort.{count_where}
use edge_omni.Metrics.Rank.{leb_ℤ, at_most, at_least, latencies, HasRank, rank_of_sorted}

-- As many elements pass any test: the lists are the same up to order.
abbrev pub SameCounts : List ℤ → List ℤ → Type 0
SameCounts xs ys = (p : ℤ → Bool) → count_where p xs ≡ count_where p ys

abbrev pub Bag : Type 0
Bag = Quot SameCounts

all_counted : (l : List ℤ) → count_where (λ z. true) l ≡ length l
all_counted [] = refl
all_counted (x ∷ l) = omega (arith, all_counted l)

-- No element is both at most `x` and at least a greater `y`.
apart : (x y : ℤ) (l : List ℤ) → x <ℤ y → at_most x l + at_least y l ≤ length l
apart x y [] h = omega arith
apart x y (z ∷ l) h = let rest = apart x y l h in ground (arith, rest)

rank_unique : (l : List ℤ) (i : ℕ) (x y : ℤ) → HasRank l i x → HasRank l i y → x ≡ y
rank_unique l i x y hx hy = elim (Bool-cases (ltb_ℤ x y)) [
  | inl less ↦ absurd (omega (arith, apart x y l (ltb_ℤ→<ℤ x y less)))
  | inr not_less ↦ elim (Bool-cases (ltb_ℤ y x)) [
    | inl more ↦ absurd (omega (arith, apart y x l (ltb_ℤ→<ℤ y x more)))
    | inr not_more ↦ ≤ℤ_antisymm x y (not_ltb_ℤ→≤ℤ y x not_more) (not_ltb_ℤ→≤ℤ x y not_less)
  ]
]

abbrev sorted_at : List ℤ → ℕ → ℤ
sorted_at l i = get_or (sort_rounds (length l - 1) l) i (pos 0)

sorted_at-SameCounts :
    (xs ys : List ℤ) (i : ℕ) → SameCounts xs ys → i < length xs → sorted_at xs i ≡ sorted_at ys i
sorted_at-SameCounts xs ys i same h =
    let long : length xs ≡ length ys = sym (all_counted xs) ∙ same (λ z. true) ∙ all_counted ys in
    let x : ℤ = sorted_at xs i in
    let y : ℤ = sorted_at ys i in
    let (low, high) = rank_of_sorted (length xs - 1) i xs (omega arith) h in
    let ranked : HasRank ys i x = (
      omega (arith, low, same (λ z. leb_ℤ z x)),
      omega (arith, high, long, same (λ z. leb_ℤ x z)),
    ) in
    rank_unique ys i x y ranked
      (rank_of_sorted (length ys - 1) i ys (omega arith) (omega (arith, long)))

list_percentiles : List ℤ → ℤ × ℤ
list_percentiles l =
    if length l == 0
    then (pos 0, pos 0)
    else (sorted_at l (length l * 50 / 100), sorted_at l (length l * 99 / 100))

list_percentiles-SameCounts :
    (xs ys : List ℤ) → SameCounts xs ys → list_percentiles xs ≡ list_percentiles ys
unfolding list_percentiles
list_percentiles-SameCounts xs ys same =
    let long : length xs ≡ length ys = sym (all_counted xs) ∙ same (λ z. true) ∙ all_counted ys in
    elim (Bool-cases (length xs == 0)) [
      | inl empty ↦
          let empty_too : (length ys == 0) ≡ true = ground (arith, long) in
          rw (empty, empty_too) refl
      | inr some ↦
          let some_too : (length ys == 0) ≡ false = ground (arith, long) in
          let positive : 0 < length xs = ground arith in
          rw (some, some_too)
            (ap₂ (λ a b. (a, b))
              (sorted_at-SameCounts xs ys (length xs * 50 / 100) same (omega arith)
                ∙ ap (λ n. sorted_at ys (n * 50 / 100)) long)
              (sorted_at-SameCounts xs ys (length xs * 99 / 100) same (omega arith)
                ∙ ap (λ n. sorted_at ys (n * 99 / 100)) long))
    ]

pair_set : IsSet (ℤ × ℤ)
pair_set = hlevel ℕ_discrete

-- The abstract percentiles: they are given a bag.
pub percentiles : Bag → ℤ × ℤ
percentiles = Quot.lift pair_set list_percentiles list_percentiles-SameCounts

abbrev pub bag_of : Window → Bag
bag_of w = Quot.mk (latencies w)

-- calc_latency_percentile is the abstract function of the bag of the latencies.
calc-percentiles :
    (w : Window)
    → length w.cells ≡ latency_window_size
    → calc_latency_percentile w ≡ percentiles (bag_of w)
unfolding calc_latency_percentile percentiles list_percentiles
calc-percentiles w sized =
    let long : length (latencies w) ≡ clamped w.count =
      ground (arith, length-take (clamped w.count) w.cells) in
    rw long refl

-- Two windows of 1024 cells that hold the same latencies, whatever their order, have the same
-- percentiles.
pub percentiles_forget_order :
    (w w' : Window)
    → length w.cells ≡ latency_window_size
    → length w'.cells ≡ latency_window_size
    → bag_of w ≡ bag_of w'
    → calc_latency_percentile w ≡ calc_latency_percentile w'
percentiles_forget_order w w' sized sized' same =
    calc-percentiles w sized ∙ ap percentiles same ∙ sym (calc-percentiles w' sized')
