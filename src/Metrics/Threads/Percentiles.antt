-- ===== src/Metrics/Threads/Percentiles.antt =====
-- What calc_latency_percentile returns while record_latency runs.
use edge_omni.Common.{
  ℕ, zero, suc, ◌+◌, ◌^◌, ◌≤◌, ◌<◌, ◌≡◌, inl, inr, refl, arith, false, List, [], ◌∷◌, ◌++◌, ◌==◌,
  length, get_or, take, All, Any, Bool-cases, length-append, length-replicate,
}
use edge_omni.Common.Int.{ℤ, pos}
use edge_omni.Metrics.{empty, clamped, calc_latency_percentile}
use edge_omni.Metrics.Rank.{percentiles_among, clamped_le}
use edge_omni.Metrics.Threads.{
  Reader, Threads, Turn, not_recording, not_reading, copying, recorder, reader, record_access,
  read_access, copied, access, access_all,
}
use edge_omni.Metrics.Threads.Keeps.{
  IsFair, Filled, Keeps, IsKept, begun, Records-Filled, record_access-IsKept,
}

-- The latencies of the calls that a run begins, the oldest first.
abbrev pub latencies_of : List Turn → Threads → List ℤ
latencies_of [] t = []
latencies_of (recorder x ∷ turns) t =
    begun t.recorder x ++ latencies_of turns (record_access x t.recorder t)
latencies_of (reader ∷ turns) t = latencies_of turns (read_access t.reader t)

module _ (P : ℤ → Type 0) where
  All-append : (xs ys : List ℤ) → All P (xs ++ ys) → All P xs × All P ys
  All-append [] ys h = (tt, h)
  All-append (x ∷ xs) ys h = let (a, b) = All-append xs ys h.1 in ((h.0, a), b)

  All-take : (n : ℕ) (l : List ℤ) → All P l → All P (take n l)
  All-take zero l h = tt
  All-take (suc n) [] h = tt
  All-take (suc n) (x ∷ l) h = (h.0, All-take n l h.1)

  All-snoc : (l : List ℤ) (x : ℤ) → All P l → P x → All P (l ++ x ∷ [])
  All-snoc [] x h hx = (hx, tt)
  All-snoc (y ∷ l) x h hx = (h.0, All-snoc l x h.1 hx)

  -- The copy of a loop that has ended has fair percentiles.
  copy-IsFair :
      (count : ℕ) (local : List ℤ)
      → 0 < count
      → count ≤ 1024
      → length local ≡ count
      → All P local
      → IsFair P (calc_latency_percentile (record { cells = local; write_idx = 0; count = count }))
  copy-IsFair count local positive bound long all =
      let whole : clamped count ≡ count = ground (arith, bound) in
      inr (
        percentiles_among P (record { cells = local; write_idx = 0; count = count })
          (omega (arith, whole, long)) positive (All-take (clamped count) local all))

  copied-IsKept :
      (k count : ℕ) (local : List ℤ) (t : Threads)
      → Keeps P (suc k) t.recorder not_reading t
      → Filled P count t.window.cells
      → 0 < count
      → count ≤ 1024
      → length local ≤ count
      → All P local
      → IsKept P k (copied count local t)
  unfolding copied
  copied-IsKept k count local t v filled positive bound enough all =
      let room : t.window.write_idx + k < 2 ^ 31 = omega (arith, v.room) in
      elim (Bool-cases (length local == count)) [
        | inl e ↦
            let long : length local ≡ count = ground arith in
            rw e (record {
              sized = v.sized;
              room = room;
              records = v.records;
              copies = tt;
              fair = (copy-IsFair count local positive bound long all, v.fair);
              on_array = v.on_array;
            })
        | inr e ↦ rw e (record {
          sized = v.sized;
          room = room;
          records = v.records;
          copies = (filled, bound, ground arith, all);
          fair = v.fair;
          on_array = v.on_array;
        })
      ]

  read_access-IsKept :
      (k : ℕ) (q : Reader) (t : Threads)
      → Keeps P (suc k) t.recorder q t
      → IsKept P k (read_access q t)
  unfolding read_access
  read_access-IsKept k not_reading t v =
      let room : t.window.write_idx + k < 2 ^ 31 = omega (arith, v.room) in
      let n : ℕ = clamped t.window.count in
      elim (Bool-cases (n == 0)) [
        | inl e ↦ rw e (record {
          sized = v.sized;
          room = room;
          records = v.records;
          copies = tt;
          fair = (inl refl, v.fair);
          on_array = v.on_array;
        })
        | inr e ↦
            let filled = Records-Filled P t.recorder t.window v.records in
            let positive : 0 < n = ground arith in
            let bound : n ≤ 1024 = clamped_le t.window.count in
            rw e (record {
              sized = v.sized;
              room = room;
              records = v.records;
              copies = (filled, bound, positive, tt);
              fair = v.fair;
              on_array = v.on_array;
            })
      ]
  read_access-IsKept k (copying count local) t v =
      let (filled, bound, more, all) = v.copies in
      let x = get_or t.window.cells (length local) (pos 0) in
      copied-IsKept k count (local ++ x ∷ []) t
        (record {
          sized = v.sized;
          room = v.room;
          records = v.records;
          copies = tt;
          fair = v.fair;
          on_array = v.on_array;
        })
        filled (omega arith) bound (omega (arith, length-append local (x ∷ [])))
        (All-snoc local x all (filled (length local) more (omega arith)))

  access_all-IsKept :
      (k : ℕ) (turns : List Turn) (t : Threads)
      → All P (latencies_of turns t)
      → length turns ≤ k
      → IsKept P k t
      → IsKept P 0 (access_all turns t)
  unfolding access_all access
  access_all-IsKept k [] t g enough v = record {
    sized = v.sized;
    room = omega (arith, v.room);
    records = v.records;
    copies = v.copies;
    fair = v.fair;
    on_array = v.on_array;
  }
  access_all-IsKept zero (turn ∷ turns) t g enough v = absurd (omega arith)
  access_all-IsKept (suc k) (recorder x ∷ turns) t g enough v =
      let t' : Threads = record_access x t.recorder t in
      let (now, later) = All-append (begun t.recorder x) (latencies_of turns t') g in
      access_all-IsKept k turns t' later (omega arith)
        (record_access-IsKept P x k t.recorder t now v)
  access_all-IsKept (suc k) (reader ∷ turns) t g enough v =
      access_all-IsKept k turns (read_access t.reader t) g (omega arith)
        (read_access-IsKept k t.reader t v)

-- At the start of the program.
abbrev pub started : Threads
started = record {
  window = empty;
  recorder = not_recording;
  reader = not_reading;
  returned = [];
  strayed = false;
}

started-IsKept : (P : ℤ → Type 0) (k : ℕ) → k < 2 ^ 31 → IsKept P k started
started-IsKept P k h = record {
  sized = length-replicate 1024 (pos 0);
  room = omega arith;
  records = ((λ i lt range. absurd (omega arith)), omega arith, inr refl);
  copies = tt;
  fair = tt;
  on_array = refl;
}

abbrev pub IsAmong : List ℤ → ℤ → Type 0
IsAmong xs v = Any (λ x. v ≡ x) xs

All-IsAmong : (all xs : List ℤ) → ((v : ℤ) → IsAmong xs v → IsAmong all v) → All (IsAmong all) xs
All-IsAmong all [] h = tt
All-IsAmong all (x ∷ xs) h = (h x (inl refl), All-IsAmong all xs (λ v e. h v (inr e)))

-- From the start, in whatever order fewer than 2^31 accesses of record_latency and
-- calc_latency_percentile take effect, no store leaves the array, and what is returned is 0 and 0
-- or two of the recorded latencies, the first at most the second.
pub percentiles_any_time :
    (turns : List Turn)
    → length turns < 2 ^ 31
    → let t = access_all turns started in
      (t.strayed ≡ false) × All (IsFair (IsAmong (latencies_of turns started))) t.returned
percentiles_any_time turns h =
    let xs = latencies_of turns started in
    let v =
      access_all-IsKept (IsAmong xs) (length turns) turns started (All-IsAmong xs xs (λ v e. e))
        (omega arith) (started-IsKept (IsAmong xs) (length turns) h) in
    (v.on_array, v.fair)
