-- ===== src/Metrics/Threads.antt =====
-- app/core/metrics.c: record_latency on the collector's thread and calc_latency_percentile on the
-- web server's, access by access, in any order.
pub mod Keeps
pub mod Percentiles
use edge_omni.Common.{
  ℕ, zero, suc, ◌+◌, ◌%◌, ◌^◌, ◌≤◌, ◌<◌, ◌≡◌, ◌≢◌, ◌⊎◌, inl, inr, refl, sym, ◌∙◌, ap, arith, Bool,
  true, false, Option, none, some, List, [], ◌∷◌, ◌++◌, ltb, leb, ◌==◌, if◌then◌else◌, length,
  get_or, set, All, Bool-cases, length-set, length-append, get_or-set_self, get_or-set_ne,
}
use edge_omni.Common.Int.{ℤ, pos, negsuc, ◌≤ℤ◌}
use edge_omni.Common.Word.{u32, signed32}
use edge_omni.Metrics.{
  Window, latency_window_size, index_of, full, clamped, calc_latency_percentile,
}
use edge_omni.Metrics.Rank.{percentiles_among}

-- Where record_latency is: not called; after its first access, with `idx`, which is `none` below 0,
-- and its latency; after the store; and before it takes g_latency_count back.
pub data Recorder : Type 0 where
  not_recording : Recorder
  claimed : Option ℕ → ℤ → Recorder
  written overfull : Recorder

-- Where calc_latency_percentile is: not called; or in its copying loop, with `count` and what there
-- is of `local`.
pub data Reader : Type 0 where
  not_reading : Reader
  copying : (count : ℕ) (local : List ℤ) → Reader

-- The atomic variables, the two threads, the percentiles that have been returned, the newest first,
-- and whether a store has left the array.
pub record Threads : Type 0 where
  pub window : Window
  pub recorder : Recorder
  pub reader : Reader
  pub returned : List (ℤ × ℤ)
  pub strayed : Bool

-- The next access of record_latency; at rest it is called with a latency.
pub data Turn : Type 0 where
  recorder : (latency_us : ℤ) → Turn
  reader : Turn

unfoldable pub record_access : ℤ → Recorder → Threads → Threads
record_access x not_recording t = record t {
  window = record t.window { write_idx = u32 (t.window.write_idx + 1) };
  recorder = claimed (index_of (signed32 t.window.write_idx) latency_window_size) x;
}
record_access x (claimed none y) t = record t { recorder = written; strayed = true }
record_access x (claimed (some idx) y) t = record t {
  window = record t.window { cells = set t.window.cells idx y };
  recorder = written;
}
record_access x written t = record t {
  window = record t.window { count = u32 (t.window.count + 1) };
  recorder = if full (signed32 t.window.count) then overfull else not_recording;
}
record_access x overfull t = record t {
  window = record t.window { count = latency_window_size };
  recorder = not_recording;
}

-- The loop has copied `local`: it goes on, or what follows it works on the copy alone.
unfoldable pub copied : ℕ → List ℤ → Threads → Threads
copied count local t =
    let result = calc_latency_percentile (record { cells = local; write_idx = 0; count = count }) in
    record t {
      reader = if length local == count then not_reading else copying count local;
      returned = if length local == count then result ∷ t.returned else t.returned;
    }

unfoldable pub read_access : Reader → Threads → Threads
unfolding copied
read_access not_reading t =
    let count = clamped t.window.count in
    record t {
      reader = if count == 0 then not_reading else copying count [];
      returned = if count == 0 then (pos 0, pos 0) ∷ t.returned else t.returned;
    }
read_access (copying count local) t =
    copied count (local ++ get_or t.window.cells (length local) (pos 0) ∷ []) t

unfoldable pub access : Turn → Threads → Threads
access (recorder x) t = record_access x t.recorder t
access reader t = read_access t.reader t

unfoldable pub access_all : List Turn → Threads → Threads
unfolding access
access_all [] t = t
access_all (turn ∷ turns) t = access_all turns (access turn t)
