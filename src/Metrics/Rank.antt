-- ===== src/Metrics/Rank.antt =====
-- What the percentiles mean, told by counting in the window with no sorting in sight.

use edge_omni.Common.{
  ℕ, zero, suc, ◌+◌, ◌-◌, ◌*◌, ◌/◌, ◌≤◌, ◌<◌, ◌≡◌, refl, ◌∙◌, arith, Bool, true, false, List, [],
  ◌∷◌, leb, ◌==◌, length, get_or, take, length-take, All,
}
use edge_omni.Common.Int.{ℤ, pos, ◌≤ℤ◌, pos_part, neg_part}
use edge_omni.Metrics.{Window, sort_rounds, clamped, latency_window_size, calc_latency_percentile}
use edge_omni.Metrics.Sort.{
  IsSorted, count_where, sort_rounds-IsSorted, All-sort_rounds, count_where-sort_rounds,
  length-sort_rounds,
}

abbrev pub leb_ℤ : ℤ → ℤ → Bool
leb_ℤ a b = leb (pos_part a + neg_part b) (pos_part b + neg_part a)

le→leb_ℤ : (a b : ℤ) → a ≤ℤ b → leb_ℤ a b ≡ true
le→leb_ℤ a b h = ground arith

abbrev pub at_most : ℤ → List ℤ → ℕ
at_most v = count_where (λ z. leb_ℤ z v)

abbrev pub at_least : ℤ → List ℤ → ℕ
at_least v = count_where (λ z. leb_ℤ v z)

All-get_or :
    (P : ℤ → Type 0) (l : List ℤ) (i : ℕ) (d : ℤ) → All P l → i < length l → P (get_or l i d)
All-get_or P [] i d h lt = absurd (omega arith)
All-get_or P (x ∷ l) zero d h lt = h.0
All-get_or P (x ∷ l) (suc i) d h lt = All-get_or P l i d h.1 (omega arith)

All-at_least : (a : ℤ) (l : List ℤ) → All (λ z. a ≤ℤ z) l → at_least a l ≡ length l
All-at_least a [] h = refl
All-at_least a (x ∷ l) h = rw (le→leb_ℤ a x h.0) (omega (arith, All-at_least a l h.1))

sorted_at_most :
    (l : List ℤ) (i : ℕ) (d : ℤ) → IsSorted l → i < length l → i + 1 ≤ at_most (get_or l i d) l
sorted_at_most [] i d s h = absurd (omega arith)
sorted_at_most (x ∷ l) zero d s h = rw (le→leb_ℤ x x (omega arith)) (omega arith)
sorted_at_most (x ∷ l) (suc i) d s h =
    rw (le→leb_ℤ x (get_or l i d) (All-get_or (λ z. x ≤ℤ z) l i d s.0 (omega arith)))
      (omega (arith, sorted_at_most l i d s.1 (omega arith)))

sorted_at_least :
    (l : List ℤ) (i : ℕ) (d : ℤ)
    → IsSorted l
    → i < length l
    → length l ≤ i + at_least (get_or l i d) l
sorted_at_least [] i d s h = absurd (omega arith)
sorted_at_least (x ∷ l) zero d s h =
    rw (le→leb_ℤ x x (omega arith), All-at_least x l s.0) (omega arith)
sorted_at_least (x ∷ l) (suc i) d s h = omega (arith, sorted_at_least l i d s.1 (omega arith))

sorted_mono :
    (l : List ℤ) (i j : ℕ) (d : ℤ)
    → IsSorted l
    → i ≤ j
    → j < length l
    → get_or l i d ≤ℤ get_or l j d
sorted_mono [] i j d s h k = absurd (omega arith)
sorted_mono (x ∷ l) zero zero d s h k = omega arith
sorted_mono (x ∷ l) zero (suc j) d s h k = All-get_or (λ z. x ≤ℤ z) l j d s.0 (omega arith)
sorted_mono (x ∷ l) (suc i) zero d s h k = absurd (omega arith)
sorted_mono (x ∷ l) (suc i) (suc j) d s h k = sorted_mono l i j d s.1 (omega arith) (omega arith)

-- The latencies that the percentiles are taken of.
abbrev pub latencies : Window → List ℤ
latencies w = take (clamped w.count) w.cells

-- `v` has rank `i` in `l`: at least `i + 1` elements are at most `v`, and all but `i` are at least
-- `v`.
abbrev pub HasRank : List ℤ → ℕ → ℤ → Type 0
HasRank l i v = (i + 1 ≤ at_most v l) × (length l ≤ i + at_least v l)

pub rank_of_sorted :
    (n i : ℕ) (l : List ℤ)
    → length l ≤ n + 1
    → i < length l
    → HasRank l i (get_or (sort_rounds n l) i (pos 0))
rank_of_sorted n i l enough h =
    let s : List ℤ = sort_rounds n l in
    let sorted = sort_rounds-IsSorted n l enough in
    let long = length-sort_rounds n l in
    let v : ℤ = get_or s i (pos 0) in
    (
      omega (
        arith,
        sorted_at_most s i (pos 0) sorted (omega (arith, long)),
        count_where-sort_rounds (λ z. leb_ℤ z v) n l,
      ),
      omega (
        arith,
        long,
        sorted_at_least s i (pos 0) sorted (omega (arith, long)),
        count_where-sort_rounds (λ z. leb_ℤ v z) n l,
      ),
    )

pub clamped_le : (n : ℕ) → clamped n ≤ 1024
clamped_le n = ground arith

-- With at least one latency in a window of 1024 cells, p50 and p99 are the latencies of rank count
-- * 50 / 100 and count * 99 / 100 among those that the window holds, and p50 is at most p99.
pub percentile_ranks :
    (w : Window)
    → length w.cells ≡ latency_window_size
    → 0 < w.count
    → let n = clamped w.count in
      let (p50, p99) = calc_latency_percentile w in
      HasRank (latencies w) (n * 50 / 100) p50
      × HasRank (latencies w) (n * 99 / 100) p99
      × (p50 ≤ℤ p99)
unfolding calc_latency_percentile
percentile_ranks w sized some_left =
    let n : ℕ = clamped w.count in
    let bound : n ≤ 1024 = clamped_le w.count in
    let positive : 0 < n = ground arith in
    let long : length (latencies w) ≡ n = omega (arith, length-take n w.cells) in
    let enough : length (latencies w) ≤ n - 1 + 1 = omega (arith, long) in
    let some_n : (n == 0) ≡ false = ground (arith, positive) in
    rw some_n (
      rank_of_sorted (n - 1) (n * 50 / 100) (latencies w) enough (omega (arith, long)),
      rank_of_sorted (n - 1) (n * 99 / 100) (latencies w) enough (omega (arith, long)),
      sorted_mono (sort_rounds (n - 1) (latencies w)) (n * 50 / 100) (n * 99 / 100) (pos 0)
          (sort_rounds-IsSorted (n - 1) (latencies w) enough) (omega arith)
          (omega (arith, length-sort_rounds (n - 1) (latencies w), long)),
    )

-- The percentiles are among the latencies, in their order.
pub percentiles_among :
    (P : ℤ → Type 0) (w : Window)
    → clamped w.count ≤ length w.cells
    → 0 < w.count
    → All P (latencies w)
    → let (p50, p99) = calc_latency_percentile w in P p50 × P p99 × (p50 ≤ℤ p99)
unfolding calc_latency_percentile
percentiles_among P w sized some_left h =
    let n : ℕ = clamped w.count in
    let bound : n ≤ 1024 = clamped_le w.count in
    let positive : 0 < n = ground arith in
    let long : length (latencies w) ≡ n = omega (arith, length-take n w.cells) in
    let some_n : (n == 0) ≡ false = ground (arith, positive) in
    let s : List ℤ = sort_rounds (n - 1) (latencies w) in
    let longs : length s ≡ n = length-sort_rounds (n - 1) (latencies w) ∙ long in
    let all = All-sort_rounds P (n - 1) (latencies w) h in
    rw some_n (
      All-get_or P s (n * 50 / 100) (pos 0) all (omega arith),
      All-get_or P s (n * 99 / 100) (pos 0) all (omega arith),
      sorted_mono s (n * 50 / 100) (n * 99 / 100) (pos 0)
          (sort_rounds-IsSorted (n - 1) (latencies w) (omega (arith, long))) (omega arith)
          (omega arith),
    )
