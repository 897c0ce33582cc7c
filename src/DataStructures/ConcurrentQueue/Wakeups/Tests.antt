-- ===== src/DataStructures/ConcurrentQueue/Wakeups/Tests.antt =====
-- A run in which two consumers sleep and a push wakes one of them.
use osrm_backend.Prelude.{ℕ, refl, false, [], ◌∷◌}
use osrm_backend.DataStructures.ConcurrentQueue.{new_queue, push, wait_and_pop}
use osrm_backend.DataStructures.ConcurrentQueue.Wakeups.{
  Monitor, new_monitor, notify_one, enter, sleep, pushed, push_turn, popped, wait_and_pop_turn,
  Turns, pushing, popping, begin, after, IsAwake, Turns-IsAwake,
}

-- Two consumers sleep, and a push has woken one of them.
abbrev woken_one : Monitor ℕ
woken_one = record {
  queue = record { capacity = 2; items = 7 ∷ [] };
  not_empty = record { sleeping = 1; woken = 1 };
  not_full = record { sleeping = 0; woken = 0 };
}

abbrev asleep : ℕ → Monitor ℕ
asleep n = record {
  queue = record { capacity = 2; items = [] };
  not_empty = record { sleeping = n; woken = 0 };
  not_full = record { sleeping = 0; woken = 0 };
}

turns : Turns (new_monitor 2) woken_one
unfolding new_monitor new_queue notify_one enter sleep pushed push_turn popped wait_and_pop_turn
    push wait_and_pop
turns =
    after
      (after (after begin (popping {m' = asleep 1} false refl))
        (popping {m' = asleep 2} false refl))
      (pushing false 7 refl)

Turns-IsAwake_example : IsAwake woken_one
Turns-IsAwake_example = Turns-IsAwake 2 turns
