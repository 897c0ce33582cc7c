-- ===== src/DataStructures/ConcurrentQueue/Tests.antt =====
-- A concrete run of the queue, and the theorems at it.
use osrm_backend.Prelude.{ℕ, ◌≤◌, ◌≡◌, refl, List, [], ◌∷◌, ◌++◌, length}
use osrm_backend.DataStructures.ConcurrentQueue.{ConcurrentQueue, new_queue, push, wait_and_pop}
use osrm_backend.DataStructures.ConcurrentQueue.Fifo.{pushes, pops, Run, start, next, Run-fifo}

abbrev holding : List ℕ → ConcurrentQueue ℕ
holding xs = record { capacity = 2; items = xs }

-- Two pushes and a pop.
run : Run {A = ℕ} (new_queue 2) (7 ∷ 8 ∷ []) (7 ∷ []) (holding (8 ∷ []))
unfolding new_queue push wait_and_pop
run =
    next
      (next (next start (pushes {r = holding (7 ∷ [])} 7 refl))
        (pushes {r = holding (7 ∷ 8 ∷ [])} 8 refl))
      (pops 7 refl)

Run-fifo_example :
    ((holding (8 ∷ [])).capacity ≡ 2)
    × (7 ∷ 8 ∷ [] ≡ (7 ∷ []) ++ (holding (8 ∷ [])).items)
    × (length (holding (8 ∷ [])).items ≤ 2)
Run-fifo_example = Run-fifo run
