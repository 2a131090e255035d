-- ===== src/Ring/Fifo.antt =====
-- What the two threads see of a schedule.
use edge_omni.Common.{
  ℕ, ◌+◌, ◌<◌, ◌≡◌, sym, ◌∙◌, ap, ap₂, arith, Option, some, List, [], ◌∷◌, ◌++◌, map, length,
}
use mathlib.Core.List.{append_assoc, append-nil}
use edge_omni.Sensor.{SensorData}
use edge_omni.Ring.Bounds.{contents}
use edge_omni.Ring.Threads.{
  System, Move, produce, consume, Ended, still, nothing_there, no_room, accepted, taken, step,
  schedule,
}
use edge_omni.Ring.Interleave.{Consistent, Effect, reads, produced, consumed}

-- The samples that calls of the producer have put in, and what calls of the consumer have got.
abbrev pub accepted_of : List Ended → List SensorData
accepted_of [] = []
accepted_of (accepted x ∷ es) = x ∷ accepted_of es
accepted_of (_ ∷ es) = accepted_of es

abbrev pub taken_of : List Ended → List (Option SensorData)
taken_of [] = []
taken_of (taken out ∷ es) = out ∷ taken_of es
taken_of (_ ∷ es) = taken_of es

taken-cons :
    (e : Ended) (es : List Ended) → length (taken_of (e ∷ es)) ≡ reads e + length (taken_of es)
taken-cons still es = omega arith
taken-cons nothing_there es = omega arith
taken-cons no_room es = omega arith
taken-cons (accepted x) es = omega arith
taken-cons (taken out) es = omega arith

-- One move before the rest of a schedule.
Effect-cons :
    (ended : Ended) (es : List Ended) (q q' last : List SensorData)
    → Effect ended q q'
    → map some (q' ++ accepted_of es) ≡ taken_of es ++ map some last
    → map some (q ++ accepted_of (ended ∷ es)) ≡ taken_of (ended ∷ es) ++ map some last
Effect-cons still es q q' last same ih = rw⁻¹ same ih
Effect-cons nothing_there es q q' last same ih = rw⁻¹ same ih
Effect-cons no_room es q q' last same ih = rw⁻¹ same ih
Effect-cons (accepted x) es q q' last grown ih =
    ap (map some) (sym (append_assoc q (x ∷ []) (accepted_of es)))
    ∙ ap (λ l. map some (l ++ accepted_of es)) (sym grown)
    ∙ ih
Effect-cons (taken out) es q q' last (x, got, shrunk) ih =
    ap (λ l. map some (l ++ accepted_of es)) shrunk ∙ ap₂ ◌∷◌ (sym got) ih

module _ {c : ℕ} (d : SensorData) where
  step-Consistent :
      (m : Move) (s : System)
      → Consistent c d s
      → s.ring.read_idx + reads (step m s).1 < c
      → let (s', ended) = step m s in
        Consistent c d s'
        × Effect ended (contents c d s.ring) (contents c d s'.ring)
        × (s'.ring.read_idx ≡ s.ring.read_idx + reads ended)
  unfolding step
  step-Consistent (produce x) s h bound =
      let (lap, knows, kept, effect, same) = produced d h.lap x s.producer h.producer_knows in
      (
        record {
          lap = lap;
          producer_knows = knows;
          consumer_knows = kept s.consumer h.consumer_knows;
        },
        effect,
        omega (arith, same),
      )
  step-Consistent consume s h bound =
      let (lap, knows, kept, effect, near) = consumed d h.lap s.consumer h.consumer_knows bound in
      (
        record {
          lap = lap;
          producer_knows = kept s.producer h.producer_knows;
          consumer_knows = knows;
        },
        effect,
        near,
      )

  -- As long as the reads that return a sample do not carry the reader past its first lap, under
  -- every schedule of the accesses of one producer and one consumer, what was in the ring and the
  -- samples whose write has returned true are, in order, what the reads have returned and then
  -- what is in the ring: no sample is lost, repeated or reordered.
  pub schedule-fifo :
      (ms : List Move) (s : System)
      → Consistent c d s
      → s.ring.read_idx + length (taken_of (schedule ms s).1) < c
      → let (last, es) = schedule ms s in
        (map some (contents c d s.ring ++ accepted_of es)
          ≡ taken_of es ++ map some (contents c d last.ring))
        × Consistent c d last
  unfolding schedule
  schedule-fifo [] s h bound = (ap (map some) (append-nil (contents c d s.ring)), h)
  schedule-fifo (m ∷ ms) s h bound =
      let split = taken-cons (step m s).1 (schedule ms (step m s).0).1 in
      let (h', effect, near) = step-Consistent m s h (omega (arith, split)) in
      let (fifo, last) = schedule-fifo ms (step m s).0 h' (omega (arith, split, near)) in
      (
        Effect-cons (step m s).1 (schedule ms (step m s).0).1 (contents c d s.ring)
            (contents c d (step m s).0.ring) (contents c d (schedule ms (step m s).0).0.ring) effect
            fifo,
        last,
      )
