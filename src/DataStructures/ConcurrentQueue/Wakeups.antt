-- ===== src/DataStructures/ConcurrentQueue/Wakeups.antt =====
-- The waiting threads of a ConcurrentQueue. A turn is what a thread does between taking the mutex and
-- leaving it: a method's body, or its end from the wait on. A thread whose predicate fails sleeps until
-- it is woken, by notify_one or, as std::condition_variable allows, for no reason. Woken threads
-- compete for the mutex with threads that come new.
mod Tests
use osrm_backend.Prelude.{
  ℕ, ◌+◌, ◌-◌, ◌≤◌, ◌≡◌, ◌⊎◌, inl, refl, Bool, Option, none, some, [], ◌∷◌, ltb, if◌then◌else◌,
  length, length-append, arith, check, ◌>>=◌, ◌>>◌,
}
use osrm_backend.DataStructures.ConcurrentQueue.{
  ConcurrentQueue, new_queue, push, wait_and_pop, try_pop, circular_push, pop_front,
}

-- How many threads wait on a condition variable, asleep or woken.
pub record Condition : Type 0 where
  pub sleeping : ℕ
  pub woken : ℕ

pub record Monitor (A : Type 0) : Type 0 where
  pub queue : ConcurrentQueue A
  pub not_empty : Condition
  pub not_full : Condition

pub notify_one : Condition → Condition
notify_one c =
    if ltb 0 c.sleeping then record { sleeping = c.sleeping - 1; woken = c.woken + 1 } else c

-- A thread that takes its turn: a woken one, or one that comes new.
pub enter : Bool → Condition → Option Condition
enter is_woken c =
    if is_woken then (check (ltb 0 c.woken) >> some (record c { woken = c.woken - 1 })) else some c

pub sleep : Condition → Condition
sleep c = record c { sleeping = c.sleeping + 1 }

module _ {A : Type 0} where
  pub new_monitor : ℕ → Monitor A
  new_monitor max_size = record {
    queue = new_queue max_size;
    not_empty = record { sleeping = 0; woken = 0 };
    not_full = record { sleeping = 0; woken = 0 };
  }

  -- What is left of a turn of push, when the queue takes the element and when it is full.
  pub pushed : Monitor A → Condition → Option (ConcurrentQueue A) → Monitor A
  pushed m c none = record m { not_full = sleep c }
  pushed m c (some q) = record { queue = q; not_empty = notify_one m.not_empty; not_full = c }

  pub push_turn : Bool → A → Monitor A → Option (Monitor A)
  push_turn is_woken a m = do c ← enter is_woken m.not_full; some (pushed m c (push a m.queue))

  pub popped : Monitor A → Condition → Option (A × ConcurrentQueue A) → Monitor A
  popped m c none = record m { not_empty = sleep c }
  popped m c (some p) = record { queue = p.1; not_empty = c; not_full = notify_one m.not_full }

  pub wait_and_pop_turn : Bool → Monitor A → Option (Monitor A)
  wait_and_pop_turn is_woken m = do
    c ← enter is_woken m.not_empty
    some (popped m c (wait_and_pop m.queue))

  pub tried : Monitor A → Option A × ConcurrentQueue A → Monitor A
  tried m (none, q) = m
  tried m (some a, q) = record m { queue = q; not_full = notify_one m.not_full }

  pub try_pop_turn : Monitor A → Monitor A
  try_pop_turn m = tried m (try_pop m.queue)

  pub data Turn (m : Monitor A) : Monitor A → Type 0 where
    pushing : {m' : Monitor A} (w : Bool) (a : A) → push_turn w a m ≡ some m' → Turn m m'
    popping : {m' : Monitor A} (w : Bool) → wait_and_pop_turn w m ≡ some m' → Turn m m'
    trying : Turn m (try_pop_turn m)
    -- A thread wakes for no reason.
    stirring_consumer : Turn m (record m { not_empty = notify_one m.not_empty })
    stirring_producer : Turn m (record m { not_full = notify_one m.not_full })

  -- Any interleaving of the turns of any number of threads.
  pub data Turns (m : Monitor A) : Monitor A → Type 0 where
    begin : Turns m m
    after : {m' m'' : Monitor A} → Turns m m' → Turn m' m'' → Turns m m''

  -- No wake-up is lost: while a consumer sleeps, each element has a woken consumer that it waits for, and
  -- while a producer sleeps, each free place has a woken producer.
  pub record IsAwake (m : Monitor A) : Type 0 where
    pub consumers : (m.not_empty.sleeping ≡ 0) ⊎ (length m.queue.items ≤ m.not_empty.woken)
    pub producers :
        (m.not_full.sleeping ≡ 0) ⊎ (m.queue.capacity ≤ length m.queue.items + m.not_full.woken)

  pushed-IsAwake :
      (w : Bool) (a : A) (m m' : Monitor A) → IsAwake m → push_turn w a m ≡ some m' → IsAwake m'
  unfolding push_turn pushed enter notify_one sleep push circular_push
  pushed-IsAwake w a m m' v e =
      let grown = length-append m.queue.items (a ∷ []) in
      record {
        consumers = ground (arith, v.consumers, grown, e);
        producers = ground (arith, v.producers, grown, e);
      }

  popped-IsAwake :
      (w : Bool) (m m' : Monitor A) → IsAwake m → wait_and_pop_turn w m ≡ some m' → IsAwake m'
  unfolding wait_and_pop_turn popped enter notify_one sleep wait_and_pop pop_front
  popped-IsAwake w m m' v e = record {
    consumers = ground (arith, v.consumers, e);
    producers = ground (arith, v.producers, e);
  }

  tried-IsAwake : (m : Monitor A) → IsAwake m → IsAwake (try_pop_turn m)
  unfolding try_pop_turn tried notify_one try_pop pop_front
  tried-IsAwake m v = record {
    consumers = ground (arith, v.consumers);
    producers = ground (arith, v.producers);
  }

  Turn-IsAwake : {m m' : Monitor A} → IsAwake m → Turn m m' → IsAwake m'
  unfolding notify_one
  Turn-IsAwake {m} {m'} v (pushing w a e) = pushed-IsAwake w a m m' v e
  Turn-IsAwake {m} {m'} v (popping w e) = popped-IsAwake w m m' v e
  Turn-IsAwake {m} v trying = tried-IsAwake m v
  Turn-IsAwake {m} v stirring_consumer = record {
    consumers = ground (arith, v.consumers);
    producers = v.producers;
  }
  Turn-IsAwake {m} v stirring_producer = record {
    consumers = v.consumers;
    producers = ground (arith, v.producers);
  }

  -- In any interleaving of turns of push, wait_and_pop and try_pop that starts with an empty queue, no
  -- wake-up is lost: while a thread sleeps in wait_and_pop, at least as many are woken there as the
  -- queue has elements, and while one sleeps in push, at least as many are woken there as it has free
  -- places.
  pub Turns-IsAwake : (n : ℕ) {m : Monitor A} → Turns (new_monitor n) m → IsAwake m
  unfolding new_monitor
  Turns-IsAwake n begin = record { consumers = inl refl; producers = inl refl }
  Turns-IsAwake n (after run turn) = Turn-IsAwake (Turns-IsAwake n run) turn
