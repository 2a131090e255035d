-- ===== src/Metrics.antt =====
-- app/core/metrics.c: the window of the latest latencies, and the percentiles that are taken from
-- it. Each call runs on its own here; Metrics.Threads interleaves them.
pub mod History
pub mod Sort
pub mod Rank
pub mod Report
pub mod Bag
pub mod Threads
mod Tests
use edge_omni.Common.{
  ℕ, zero, suc, ◌+◌, ◌-◌, ◌*◌, ◌/◌, ◌%◌, ◌^◌, Bool, Option, none, some, List, [], ◌∷◌, ltb, leb,
  ◌==◌, if◌then◌else◌, get_or, set, take, replicate,
}
use edge_omni.Common.Int.{ℤ, pos, negsuc, ltb_ℤ}
use edge_omni.Common.Word.{u32, signed32}

abbrev pub latency_window_size : ℕ
latency_window_size = 1024

-- g_latency_window, g_latency_write_idx and g_latency_count; the last two are the bit patterns of
-- their `int`s.
pub record Window : Type 0 where
  pub cells : List ℤ
  pub write_idx : ℕ
  pub count : ℕ

abbrev pub empty : Window
empty = record { cells = replicate latency_window_size (pos 0); write_idx = 0; count = 0 }

-- `i % n` of C rounds towards zero, so that it has the sign of `i`. An index of an array is
-- `none` below 0.
abbrev pub index_of : ℤ → ℕ → Option ℕ
index_of (pos i) n = some (i % n)
index_of (negsuc i) n = if (i + 1) % n == 0 then some 0 else none

-- `old_count >= LATENCY_WINDOW_SIZE` on signed numbers.
abbrev full : ℤ → Bool
full n = if ltb_ℤ n (pos latency_window_size) then Bool.false else Bool.true

-- `none` is a store outside the array.
unfoldable pub record_latency : Window → ℤ → Option Window
record_latency w latency_us =
    let count = if full (signed32 w.count) then latency_window_size else u32 (w.count + 1) in
    elim (index_of (signed32 w.write_idx) latency_window_size) [
      | none ↦ none
      | some idx ↦ some (record {
        cells = set w.cells idx latency_us;
        write_idx = u32 (w.write_idx + 1);
        count = count;
      })
    ]

-- The inner loop: `x` is `local[i]`, the list is `local[i + 1 ..]`.
unfoldable pub pass : ℤ → List ℤ → ℤ × List ℤ
pass x [] = (x, [])
pass x (y ∷ ys) =
    let swapped = ltb_ℤ y x in
    let (least, rest) = pass (if swapped then y else x) ys in
    (least, (if swapped then x else y) ∷ rest)

-- The outer loop, for the rounds that are left: the list is `local[i ..]`.
unfoldable pub sort_rounds : ℕ → List ℤ → List ℤ
sort_rounds zero l = l
sort_rounds (suc n) [] = []
sort_rounds (suc n) (x ∷ xs) = let (least, rest) = pass x xs in least ∷ sort_rounds n rest

abbrev pub clamped : ℕ → ℕ
clamped n = if ltb latency_window_size n then latency_window_size else n

-- The copy of the window that is sorted, and the two elements that are read from it.
unfoldable pub calc_latency_percentile : Window → ℤ × ℤ
unfolding sort_rounds pass
calc_latency_percentile w =
    let n = clamped w.count in
    let sorted = sort_rounds (n - 1) (take n w.cells) in
    if n == 0
    then (pos 0, pos 0)
    else (get_or sorted (n * 50 / 100) (pos 0), get_or sorted (n * 99 / 100) (pos 0))
