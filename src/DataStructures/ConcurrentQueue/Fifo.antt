-- ===== src/DataStructures/ConcurrentQueue/Fifo.antt =====
-- Runs of threads that share a queue.
use osrm_backend.Prelude.{
  ℕ, ◌≤◌, ◌<◌, ◌≡◌, refl, ◌∙◌, Option, none, some, List, [], ◌∷◌, ◌++◌, length, length-append,
  arith, ap, sym,
}
use mathlib.Core.List.{append_assoc, append-nil}
use osrm_backend.DataStructures.ConcurrentQueue.{
  ConcurrentQueue, new_queue, push, wait_and_pop, try_pop, pop_front,
}

module _ {A : Type 0} where
  -- One method of one thread, with what it puts in and what it takes out.
  pub data Step : ConcurrentQueue A → List A → List A → ConcurrentQueue A → Type 0 where
    pushes : {q r : ConcurrentQueue A} (a : A) → push a q ≡ some r → Step q (a ∷ []) [] r
    pops : {q r : ConcurrentQueue A} (a : A) → wait_and_pop q ≡ some (a, r) → Step q [] (a ∷ []) r
    tries : {q r : ConcurrentQueue A} (a : A) → try_pop q ≡ (some a, r) → Step q [] (a ∷ []) r
    fails : {q r : ConcurrentQueue A} → try_pop q ≡ (none, r) → Step q [] [] r

  -- Any interleaving of such methods, with all that went in and came out, in order.
  pub data Run (q : ConcurrentQueue A) : List A → List A → ConcurrentQueue A → Type 0 where
    start : Run q [] [] q
    next :
        {ins outs a b : List A} {r t : ConcurrentQueue A}
        → Run q ins outs r
        → Step r a b t
        → Run q (ins ++ a) (outs ++ b) t

  -- What a step keeps of a queue.
  record Fits (q r : ConcurrentQueue A) (a b : List A) : Type 0 where
    same : r.capacity ≡ q.capacity
    order : q.items ++ a ≡ b ++ r.items
    bounded : length q.items ≤ q.capacity → length r.items ≤ q.capacity

  Fits-pop :
      (xs : List A) (q r : ConcurrentQueue A) (a : A)
      → q.items ≡ xs
      → pop_front xs q ≡ some (a, r)
      → Fits q r [] (a ∷ [])
  unfolding pop_front
  Fits-pop [] q r a z e = cc
  Fits-pop (x ∷ xs) q r a z e =
      let rest : r.items ≡ xs = ground arith in
      let first : x ≡ a = ground arith in
      record {
        same = ground arith;
        order = append-nil q.items ∙ rw (z, rest, first);
        bounded = λ h. rw rest (omega (arith, ap length z));
      }

  fits_try :
      (o : Option (A × ConcurrentQueue A)) (q r : ConcurrentQueue A) (a : A)
      → pop_front q.items q ≡ o
      → (elim o as (λ o. Option A × ConcurrentQueue A) [
        | none ↦ (none, q)
        | some p ↦ (some (p.0), p.1)
      ])
        ≡ (some a, r)
      → pop_front q.items q ≡ some (a, r)
  fits_try none q r a z e = cc
  fits_try (some p) q r a z e = ground arith

  fits_fail :
      (o : Option (A × ConcurrentQueue A)) (q r : ConcurrentQueue A)
      → (elim o as (λ o. Option A × ConcurrentQueue A) [
        | none ↦ (none, q)
        | some p ↦ (some (p.0), p.1)
      ])
        ≡ (none, r)
      → q ≡ r
  fits_fail none q r e = ap (λ p. p.1) e
  fits_fail (some p) q r e = cc

  Step-Fits : {q r : ConcurrentQueue A} {a b : List A} → Step q a b r → Fits q r a b
  unfolding wait_and_pop try_pop push
  Step-Fits (pushes {q} {r} a e) =
      let grown : r.items ≡ q.items ++ (a ∷ []) = ground arith in
      let room : length q.items < q.capacity = ground arith in
      record {
        same = ground arith;
        order = rw grown;
        bounded = λ h. rw grown (omega (arith, length-append q.items (a ∷ [])));
      }
  Step-Fits (pops {q} {r} a e) = Fits-pop q.items q r a refl e
  Step-Fits (tries {q} {r} a e) = Fits-pop q.items q r a refl (fits_try _ q r a refl e)
  Step-Fits (fails {q} {r} e) =
      let same : q ≡ r = fits_fail _ q r e in
      rw (← same) (record { same = refl; order = append-nil q.items; bounded = λ h. h })

  -- In any interleaving of pushes and pops that starts with an empty queue, what was pushed is, in
  -- order, what was popped and then what the queue holds, and the queue never holds more than its
  -- capacity, so no element is dropped.
  pub Run-fifo :
      {n : ℕ} {ins outs : List A} {r : ConcurrentQueue A}
      → Run (new_queue n) ins outs r
      → (r.capacity ≡ n) × (ins ≡ outs ++ r.items) × (length r.items ≤ n)
  unfolding new_queue
  Run-fifo start = (refl, refl, omega arith)
  Run-fifo (next {ins} {outs} {a} {b} {r} {t} run step) =
      let (cap, order, bounded) = Run-fifo run in
      let f = Step-Fits step in
      (
        f.same ∙ cap,
        ap (λ x. x ++ a) order
            ∙ append_assoc outs r.items a
            ∙ ap (λ x. outs ++ x) f.order
            ∙ sym (append_assoc outs b t.items),
        omega (arith, f.bounded (omega arith), f.same),
      )
