-- ===== src/Metrics/History.antt =====
-- What record_latency keeps: the latest latencies, each in the cell of its number.

use mathlib.Core.List.{append-nil, append_assoc}
use edge_omni.Common.{
  length-replicate, ℕ, ◌+◌, ◌%◌, ◌^◌, ◌≤◌, ◌<◌, ◌≡◌, ◌≢◌, inl, inr, refl, sym, ◌∙◌, arith, Option,
  none, some, List, [], ◌∷◌, ◌++◌, if◌then◌else◌, ltb, ◌==◌, length, length-append, length-set,
  get_or, get_or-set_self, get_or-set_ne, set, get_or-append_left, Bool-cases,
}
use edge_omni.Common.Int.{ℤ, pos}
use edge_omni.Metrics.{Window, empty, record_latency, latency_window_size}

-- The window holds the history `hs`, oldest first: the counters tell its length and the cells its
-- latest 1024 entries.
pub record Holds (hs : List ℤ) (w : Window) : Type 0 where
  pub sized : length w.cells ≡ latency_window_size
  pub written : w.write_idx ≡ length hs
  pub counted :
      w.count ≡ (if ltb (length hs) latency_window_size then length hs else latency_window_size)
  pub kept :
      (i : ℕ)
      → i < length hs
      → length hs ≤ i + latency_window_size
      → get_or w.cells (i % latency_window_size) (pos 0) ≡ get_or hs i (pos 0)

get_or-snoc : (hs : List ℤ) (x d : ℤ) → get_or (hs ++ x ∷ []) (length hs) d ≡ x
get_or-snoc [] x d = refl
get_or-snoc (h ∷ hs) x d = get_or-snoc hs x d

apart : (i n : ℕ) → i < n → n + 1 ≤ i + 1024 → n % 1024 ≢ i % 1024
apart i n h k e = omega arith

recorded : Window → ℤ → Window
recorded w x = record {
  cells = set w.cells (w.write_idx % 1024) x;
  write_idx = w.write_idx + 1;
  count = if ltb w.count 1024 then w.count + 1 else 1024;
}

record_value :
    (w : Window) (x : ℤ)
    → w.write_idx + 1 < 2 ^ 31
    → w.count ≤ 1024
    → record_latency w x ≡ some (recorded w x)
unfolding record_latency recorded
record_value w x h k = ground arith

-- A call stores the latency and drops the oldest one of a full window, as long as fewer than
-- 2^31 - 1 latencies have been stored before it.
pub record_latency-Holds :
    (hs : List ℤ) (w : Window) (x : ℤ)
    → Holds hs w
    → length hs + 1 < 2 ^ 31
    → (w' : Window) × (record_latency w x ≡ some w') × Holds (hs ++ x ∷ []) w'
unfolding recorded
record_latency-Holds hs w x v h = (
  recorded w x,
  record_value w x (omega (arith, v.written)) (ground (arith, v.counted)),
  record {
    sized = length-set w.cells (w.write_idx % 1024) x ∙ v.sized;
    written = omega (arith, v.written, length-append hs (x ∷ []));
    counted = ground (arith, v.counted, length-append hs (x ∷ []));
    kept = λ i lt close. elim (Bool-cases (i == length hs)) [
      | inl e ↦
          let here : i ≡ length hs = ground arith in
          rw (here, v.written)
            (get_or-set_self w.cells (length hs % 1024) x (pos 0) (omega (arith, v.sized))
              ∙ sym (get_or-snoc hs x (pos 0)))
      | inr e ↦
          let grown = length-append hs (x ∷ []) in
          let ne : i ≢ length hs = ground arith in
          let before : i < length hs = omega (arith, grown) in
          let near : length hs + 1 ≤ i + 1024 = omega (arith, grown) in
          rw v.written (
            get_or-set_ne w.cells (length hs % 1024) (i % 1024) x (pos 0)
              (apart i (length hs) before near)
            ∙ v.kept i before (omega arith)
            ∙ sym (get_or-append_left hs (x ∷ []) i (pos 0) before))
    ];
  },
)

-- The calls for a list of latencies, oldest first.
abbrev pub record_all : Window → List ℤ → Option Window
record_all w [] = some w
record_all w (x ∷ xs) = elim (record_latency w x) [ none ↦ none | some w' ↦ record_all w' xs ]

record_all_step :
    (w : Window) (x : ℤ) (xs : List ℤ) {w₁ w₂ : Window}
    → record_latency w x ≡ some w₁
    → record_all w₁ xs ≡ some w₂
    → record_all w (x ∷ xs) ≡ some w₂
record_all_step w x xs e h = ground arith

recorded_from :
    (hs xs : List ℤ) (w : Window)
    → Holds hs w
    → length hs + length xs < 2 ^ 31
    → (w' : Window) × (record_all w xs ≡ some w') × Holds (hs ++ xs) w'
recorded_from hs [] w v h = (w, refl, rw append-nil v)
recorded_from hs (x ∷ xs) w v h =
    let (w₁, went, v₁) = record_latency-Holds hs w x v (omega arith) in
    let (w₂, rest, v₂) =
      recorded_from (hs ++ x ∷ []) xs w₁ v₁ (omega (arith, length-append hs (x ∷ []))) in
    (w₂, record_all_step w x xs went rest, rw append_assoc at v₂)

empty-Holds : Holds [] empty
empty-Holds = record {
  sized = length-replicate 1024 (pos 0);
  written = refl;
  counted = refl;
  kept = λ i lt close. absurd (omega arith);
}

-- After any fewer than 2^31 calls from the start, no store has left the array, and the window
-- holds the latest 1024 latencies.
pub record_all-Holds :
    (xs : List ℤ) → length xs < 2 ^ 31 → (w : Window) × (record_all empty xs ≡ some w) × Holds xs w
record_all-Holds xs h = recorded_from [] xs empty empty-Holds (omega arith)

-- Once g_latency_write_idx has wrapped to a negative number, a call stores in front of the array
-- unless the number is a multiple of 1024.
pub record_latency_after_wrap :
    (w : Window) (x : ℤ)
    → 2 ^ 31 ≤ w.write_idx
    → w.write_idx < 2 ^ 32
    → w.write_idx % latency_window_size ≢ 0
    → record_latency w x ≡ none
unfolding record_latency
record_latency_after_wrap w x h k n = ground arith
