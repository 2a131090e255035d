-- ===== src/Ring/Queue.antt =====
-- What a ring of `cap` slots promises: a FIFO of at most `cap - 1` samples, oldest first.
use edge_omni.Common.{
  ℕ, ◌+◌, Bool, true, false, Option, none, some, List, [], ◌∷◌, ◌++◌, ◌==◌, if◌then◌else◌, length,
}
use edge_omni.Sensor.{SensorData}
use edge_omni.Ring.{Op, put, get}

unfoldable pub push : ℕ → List SensorData → SensorData → Bool × List SensorData
push cap q x = if length q + 1 == cap then (false, q) else (true, q ++ x ∷ [])

unfoldable pub pop : List SensorData → Bool × Option SensorData × List SensorData
pop [] = (false, none, [])
pop (x ∷ q) = (true, some x, q)

unfoldable pub run : ℕ → List SensorData → List Op → List (Bool × Option SensorData)
run cap q [] = []
run cap q (put x ∷ ops) = let (done, q') = push cap q x in (done, none) ∷ run cap q' ops
run cap q (get ∷ ops) = let (done, out, q') = pop q in (done, out) ∷ run cap q' ops
