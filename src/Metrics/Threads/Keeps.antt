-- ===== src/Metrics/Threads/Keeps.antt =====
-- What the two threads of the metrics keep, and that record_latency keeps it.
use edge_omni.Common.{
  ℕ, suc, ◌+◌, ◌%◌, ◌^◌, ◌≤◌, ◌<◌, ◌≡◌, ◌≢◌, ◌⊎◌, inl, inr, sym, ◌∙◌, arith, false, none, some,
  List, [], ◌∷◌, ◌==◌, length, get_or, set, All, Bool-cases, length-set, get_or-set_self,
  get_or-set_ne,
}
use edge_omni.Common.Int.{ℤ, pos, ◌≤ℤ◌}
use edge_omni.Common.Word.{u32, signed32}
use edge_omni.Metrics.{Window, latency_window_size, index_of, full, clamped}
use edge_omni.Metrics.Threads.{
  Recorder, Reader, Threads, not_recording, not_reading, claimed, written, overfull, copying,
  record_access,
}

-- The percentiles where nothing has been recorded, or two of the latencies in their order.
abbrev pub IsFair : (ℤ → Type 0) → ℤ × ℤ → Type 0
IsFair P r = (r ≡ (pos 0, pos 0)) ⊎ (P r.0 × P r.1 × (r.0 ≤ℤ r.1))

abbrev pub Filled : (ℤ → Type 0) → ℕ → List ℤ → Type 0
Filled P n cells = (i : ℕ) → i < n → i < 1024 → P (get_or cells i (pos 0))

-- The cells below g_latency_count hold latencies, wherever record_latency is; in the first lap the
-- next store is at g_latency_count.
abbrev pub Records : (ℤ → Type 0) → Recorder → Window → Type 0
Records P not_recording w =
    Filled P w.count w.cells × (w.count ≤ 1024) × ((1024 ≤ w.count) ⊎ (w.write_idx ≡ w.count))
Records P (claimed none x) w = ⊥
Records P (claimed (some idx) x) w =
    Filled P w.count w.cells
    × (w.count ≤ 1024)
    × ((1024 ≤ w.count) ⊎ ((w.write_idx ≡ w.count + 1) × (idx ≡ w.count)))
    × (idx < 1024)
    × P x
Records P written w =
    Filled P (w.count + 1) w.cells
    × (w.count ≤ 1024)
    × ((1024 ≤ w.count) ⊎ (w.write_idx ≡ w.count + 1))
Records P overfull w = Filled P w.count w.cells × (w.count ≡ 1025)

abbrev pub Copies : (ℤ → Type 0) → Reader → List ℤ → Type 0
Copies P not_reading cells = Unit
Copies P (copying count local) cells =
    Filled P count cells × (count ≤ 1024) × (length local < count) × All P local

-- What the two threads keep, when `k` accesses are to follow.
pub record Keeps (P : ℤ → Type 0) (k : ℕ) (r : Recorder) (q : Reader) (t : Threads) : Type 0 where
  pub sized : length t.window.cells ≡ 1024
  pub room : t.window.write_idx + k < 2 ^ 31
  pub records : Records P r t.window
  pub copies : Copies P q t.window.cells
  pub fair : All (IsFair P) t.returned
  pub on_array : t.strayed ≡ false

abbrev pub IsKept : (ℤ → Type 0) → ℕ → Threads → Type 0
IsKept P k t = Keeps P k t.recorder t.reader t

index_of_small : (n : ℕ) → n < 2 ^ 31 → index_of (signed32 n) latency_window_size ≡ some (n % 1024)
index_of_small n h = ground arith

-- The latency of the call that an access of record_latency begins.
abbrev pub begun : Recorder → ℤ → List ℤ
begun not_recording x = x ∷ []
begun (claimed idx y) x = []
begun written x = []
begun overfull x = []

module _ (P : ℤ → Type 0) where
  Filled-set :
      (n idx : ℕ) (cells : List ℤ) (x : ℤ)
      → length cells ≡ 1024
      → P x
      → ((i : ℕ) → i < n → i < 1024 → i ≢ idx → P (get_or cells i (pos 0)))
      → Filled P n (set cells idx x)
  Filled-set n idx cells x sized h others i lt range = elim (Bool-cases (i == idx)) [
    | inl e ↦
        let here : i ≡ idx = ground arith in
        rw (here, get_or-set_self cells idx x (pos 0) (omega arith)) h
    | inr e ↦
        let ne : i ≢ idx = ground arith in
        let apart : idx ≢ i = λ q. ne (sym q) in
        rw (get_or-set_ne cells idx i x (pos 0) apart) (others i lt range ne)
  ]

  Copies-set :
      (r : Reader) (cells : List ℤ) (idx : ℕ) (x : ℤ)
      → length cells ≡ 1024
      → P x
      → Copies P r cells
      → Copies P r (set cells idx x)
  Copies-set not_reading cells idx x sized h c = tt
  Copies-set (copying count local) cells idx x sized h c =
      (Filled-set count idx cells x sized h (λ i lt range ne. c.0 i lt range), c.1, c.2, c.3)

  pub Records-Filled :
      (r : Recorder) (w : Window) → Records P r w → Filled P (clamped w.count) w.cells
  Records-Filled not_recording w h i lt range = h.0 i (ground arith) range
  Records-Filled (claimed none x) w h i lt range = absurd h
  Records-Filled (claimed (some idx) x) w h i lt range = h.0 i (ground arith) range
  Records-Filled written w h i lt range = h.0 i (ground arith) range
  Records-Filled overfull w h i lt range = h.0 i (ground arith) range

  pub record_access-IsKept :
      (x : ℤ) (k : ℕ) (r : Recorder) (t : Threads)
      → All P (begun r x)
      → Keeps P (suc k) r t.reader t
      → IsKept P k (record_access x r t)
  unfolding record_access
  record_access-IsKept x k not_recording t h v =
      let w : Window = t.window in
      let small : w.write_idx + 1 < 2 ^ 31 = omega (arith, v.room) in
      let index = index_of_small w.write_idx (omega arith) in
      let next : u32 (w.write_idx + 1) ≡ w.write_idx + 1 = omega arith in
      rw (index, next)
        (record {
          sized = v.sized;
          room = omega (arith, v.room);
          records = (v.records.0, v.records.1, ground (arith, v.records), omega arith, h.0);
          copies = v.copies;
          fair = v.fair;
          on_array = v.on_array;
        })
  record_access-IsKept x k (claimed none y) t h v = absurd v.records
  record_access-IsKept x k (claimed (some idx) y) t h v = record {
    sized = length-set t.window.cells idx y ∙ v.sized;
    room = omega (arith, v.room);
    records = (
      (Filled-set (t.window.count + 1) idx t.window.cells y v.sized v.records.4
          (λ i lt range ne. v.records.0 i (ground (arith, v.records)) range)),
      v.records.1,
      ground (arith, v.records),
    );
    copies = Copies-set t.reader t.window.cells idx y v.sized v.records.4 v.copies;
    fair = v.fair;
    on_array = v.on_array;
  }
  record_access-IsKept x k written t h v =
      let w : Window = t.window in
      let next : u32 (w.count + 1) ≡ w.count + 1 = omega (arith, v.records.1) in
      elim (Bool-cases (full (signed32 w.count))) [
        | inl e ↦
            let last : w.count ≡ 1024 = ground (arith, v.records.1) in
            rw (e, next)
              (record {
                sized = v.sized;
                room = omega (arith, v.room);
                records = (v.records.0, omega arith);
                copies = v.copies;
                fair = v.fair;
                on_array = v.on_array;
              })
        | inr e ↦
            let more : w.count < 1024 = ground (arith, v.records.1) in
            rw (e, next)
              (record {
                sized = v.sized;
                room = omega (arith, v.room);
                records = (v.records.0, omega arith, ground (arith, v.records.2));
                copies = v.copies;
                fair = v.fair;
                on_array = v.on_array;
              })
      ]
  record_access-IsKept x k overfull t h v = record {
    sized = v.sized;
    room = omega (arith, v.room);
    records = (
      (λ i lt range. v.records.0 i (omega (arith, v.records.1)) range),
      omega arith,
      inl (omega arith),
    );
    copies = v.copies;
    fair = v.fair;
    on_array = v.on_array;
  }
