-- ===== src/Metrics/Tests.antt =====
-- Runs of the window and of the percentiles, and the theorems at concrete inputs.
use edge_omni.Common.{
  ◌+◌, ◌*◌, ◌/◌, ◌^◌, ◌≡◌, refl, arith, none, some, List, [], ◌∷◌, replicate, length, All, false,
}
use edge_omni.Common.Int.{ℤ, pos, negsuc, ◌≤ℤ◌}
use edge_omni.Metrics.{Window, empty, record_latency, calc_latency_percentile, clamped}
use edge_omni.Metrics.History.{record_all, Holds, record_all-Holds, record_latency_after_wrap}
use edge_omni.Common.Format.{render}
use mathlib.Core.Quot
use edge_omni.Metrics.Bag.{percentiles_forget_order}
use edge_omni.Metrics.Report.{Totals, report_format, metrics_generate, metrics_generate_fits}
use edge_omni.Metrics.Threads.{
  Turn, recorder, reader, access_all, record_access, read_access, copied,
}
use edge_omni.Metrics.Threads.Keeps.{IsFair}
use edge_omni.Metrics.Threads.Percentiles.{started, latencies_of, IsAmong, percentiles_any_time}
use edge_omni.Metrics.Rank.{percentile_ranks, HasRank, latencies}

abbrev few : List ℤ
few = pos 900 ∷ pos 100 ∷ pos 500 ∷ []

record_all-Holds_example : (w : Window) × (record_all empty few ≡ some w) × Holds few w
record_all-Holds_example = record_all-Holds few (omega arith)

abbrev held : Window
held = record {
  cells = pos 900 ∷ pos 100 ∷ pos 500 ∷ replicate 1021 (pos 0);
  write_idx = 3;
  count = 3;
}

percentiles_of_held : calc_latency_percentile held ≡ (pos 500, pos 900)
unfolding calc_latency_percentile
percentiles_of_held = refl

percentile_ranks_example :
    let n = clamped 3 in
    let (p50, p99) = calc_latency_percentile held in
    HasRank (latencies held) (n * 50 / 100) p50
    × HasRank (latencies held) (n * 99 / 100) p99
    × (p50 ≤ℤ p99)
percentile_ranks_example = percentile_ranks held refl (omega arith)

abbrev old : Window
old = record { cells = replicate 1024 (pos 0); write_idx = 2 ^ 31 + 1; count = 1024 }

record_latency_after_wrap_example : record_latency old (pos 7) ≡ none
record_latency_after_wrap_example =
    record_latency_after_wrap old (pos 7) (omega arith) (omega arith) (omega arith)

abbrev totals : Totals
totals = record { retry = pos 2; temp = negsuc 10122; humi = pos 48123; state = 2; window = held }

metrics_generate_fits_example :
    metrics_generate 1024 totals
    ≡ (render (report_format totals), length (render (report_format totals)))
metrics_generate_fits_example = metrics_generate_fits 1024 totals (omega arith)

-- The same latencies in another order.
abbrev turned : Window
turned = record {
  cells = pos 500 ∷ pos 900 ∷ pos 100 ∷ replicate 1021 (pos 0);
  write_idx = 3;
  count = 3;
}

percentiles_forget_order_example : calc_latency_percentile held ≡ calc_latency_percentile turned
percentiles_forget_order_example =
    percentiles_forget_order held turned refl refl (Quot.sound (λ p. omega arith))

-- A report reads g_latency_count before the second latency is counted, the next one after it.
abbrev overlapped : List Turn
overlapped =
    recorder (pos 900)
    ∷ recorder (pos 0)
    ∷ recorder (pos 0)
    ∷ reader
    ∷ recorder (pos 100)
    ∷ recorder (pos 0)
    ∷ recorder (pos 0)
    ∷ reader
    ∷ reader
    ∷ reader
    ∷ reader
    ∷ []

reports_while_recording :
    (access_all overlapped started).returned ≡ (pos 900, pos 900) ∷ (pos 900, pos 900) ∷ []
unfolding access_all record_access read_access copied calc_latency_percentile
reports_while_recording = refl

begun_while_reporting : latencies_of overlapped started ≡ pos 900 ∷ pos 100 ∷ []
unfolding record_access read_access copied
begun_while_reporting = refl

percentiles_any_time_example :
    let t = access_all overlapped started in
    (t.strayed ≡ false) × All (IsFair (IsAmong (latencies_of overlapped started))) t.returned
percentiles_any_time_example = percentiles_any_time overlapped (omega arith)
