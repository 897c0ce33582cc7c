-- ===== src/DataStructures/ConcurrentQueue.antt =====
-- DataStructures/ConcurrentQueue.h: a bounded queue between threads.
-- Each method runs under the queue's mutex, so a run of any number of threads is a sequence of
-- whole methods. A wait is `none`: the method has not changed anything and is tried again later.
-- boost::circular_buffer keeps at most `capacity` elements, and drops its oldest one when another
-- is pushed into a full buffer. The threads that wait are in Wakeups.
pub mod Fifo
pub mod Wakeups
mod Tests
use osrm_backend.Prelude.{
  ℕ, ◌+◌, ◌<◌, ◌≡◌, Bool, true, false, Option, none, some, List, [], ◌∷◌, ◌++◌, ltb, if◌then◌else◌,
  length,
}

pub record ConcurrentQueue (A : Type 0) : Type 0 where
  pub capacity : ℕ
  pub items : List A

module _ {A : Type 0} where
  pub new_queue : ℕ → ConcurrentQueue A
  new_queue max_size = record { capacity = max_size; items = [] }

  -- What push_back of the circular buffer leaves.
  abbrev drop_oldest : List A → List A
  drop_oldest [] = []
  drop_oldest (x ∷ xs) = xs

  circular_push : A → ConcurrentQueue A → ConcurrentQueue A
  circular_push a q =
      let grown = q.items ++ (a ∷ []) in
      record q { items = if ltb (length q.items) q.capacity then grown else drop_oldest grown }

  pub push : A → ConcurrentQueue A → Option (ConcurrentQueue A)
  unfolding circular_push
  push a q = if ltb (length q.items) q.capacity then some (circular_push a q) else none

  pub empty : ConcurrentQueue A → Bool
  empty q = elim q.items [ [] ↦ true | x ∷ xs ↦ false ]

  pop_front : List A → ConcurrentQueue A → Option (A × ConcurrentQueue A)
  pop_front [] q = none
  pop_front (x ∷ xs) q = some (x, record q { items = xs })

  pub wait_and_pop : ConcurrentQueue A → Option (A × ConcurrentQueue A)
  unfolding pop_front
  wait_and_pop q = pop_front q.items q

  -- `none` for a return of false, with nothing changed.
  pub try_pop : ConcurrentQueue A → Option A × ConcurrentQueue A
  unfolding pop_front
  try_pop q = elim (pop_front q.items q) as (λ o. Option A × ConcurrentQueue A) [
    | none ↦ (none, q)
    | some p ↦ (some (p.0), p.1)
  ]
