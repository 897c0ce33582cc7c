-- ===== src/DataStructures/XorFastHashStorage/Replay.antt =====
-- The storage is a map from nodes to keys that Clear empties, for up to 2 ^ 16 accesses between two
-- calls of Clear.
use osrm_backend.Prelude.{
  ℕ, suc, ◌+◌, ◌^◌, ◌<◌, ◌≡◌, inl, inr, refl, sym, Bool, true, ◌&&◌, Option, none, some, arith,
  List, [], ◌∷◌, ltb, ◌==◌, if◌then◌else◌, Returns, done, Returns->>=, Bool-cases, ◌>>=◌,
}
use mathlib.Core.Path.{subst}
use osrm_backend.DataStructures.XorFastHash.{XorFastHash, Filled}
use osrm_backend.DataStructures.XorFastHashStorage.{
  XorFastHashStorage, unsigned_max, new_storage, set, get, clear,
}
use osrm_backend.DataStructures.XorFastHashStorage.Cells.{IsValid, Holds}
use osrm_backend.DataStructures.XorFastHashStorage.Access.{get_lem, Sets, set_lem, clear_lem}

pub data Operation : Type 0 where
  write : ℕ → ℕ → Operation
  read : ℕ → Operation
  reset : Operation

-- What the reads return.
pub run : List Operation → XorFastHashStorage → Option (List ℕ)
run [] s = some []
run (write node key ∷ rest) s = do s' ← set node key s; run rest s'
run (read node ∷ rest) s = do (key, s') ← get node s; keys ← run rest s'; some (key ∷ keys)
run (reset ∷ rest) s = run rest (clear s)

-- The keys since the last reset, and what the reads should return: a node that has not been written
-- has no key.
unfoldable pub answers : List Operation → (ℕ → Option ℕ) → List (Option ℕ)
answers [] keys = []
answers (write node key ∷ rest) keys = answers rest (λ n. if n == node then some key else keys n)
answers (read node ∷ rest) keys = keys node ∷ answers rest keys
answers (reset ∷ rest) keys = answers rest (λ _. none)

-- There are few enough accesses between two resets, from `c` on, and few enough resets.
unfoldable pub fits : List Operation → ℕ → ℕ → Bool
fits [] c now = true
fits (write node key ∷ rest) c now = ltb c (2 ^ 16) && fits rest (suc c) now
fits (read node ∷ rest) c now = ltb c (2 ^ 16) && fits rest (suc c) now
fits (reset ∷ rest) c now = ltb (now + 1) unsigned_max && fits rest 0 (now + 1)

-- The keys that were read are those that were expected.
pub data Agree : List (Option ℕ) → List ℕ → Type 0 where
  none_left : Agree [] []
  known :
      {expected : List (Option ℕ)} {keys : List ℕ} (key : ℕ)
      → Agree expected keys
      → Agree (some key ∷ expected) (key ∷ keys)
  unknown :
      {expected : List (Option ℕ)} {keys : List ℕ} (key : ℕ)
      → Agree expected keys
      → Agree (none ∷ expected) (key ∷ keys)

Represents : XorFastHashStorage → (ℕ → Option ℕ) → Type 0
Represents s keys = (n k : ℕ) → keys n ≡ some k → Holds s n k

Agree-next :
    (expected : Option ℕ) (key : ℕ) {rest : List (Option ℕ)} {keys : List ℕ}
    → ((k : ℕ) → expected ≡ some k → key ≡ k)
    → Agree rest keys
    → Agree (expected ∷ rest) (key ∷ keys)
Agree-next none key same a = unknown key a
Agree-next (some k) key {rest} {keys} same a =
    subst (λ x. Agree (some k ∷ rest) (x ∷ keys)) (sym (same k refl)) (known k a)

run_from :
    (ops : List Operation) (c : ℕ) (s : XorFastHashStorage) (keys : ℕ → Option ℕ)
    → IsValid c s
    → fits ops c s.current_timestamp ≡ true
    → Represents s keys
    → Returns (Agree (answers ops keys)) (run ops s)
unfolding run answers fits Represents Sets
run_from [] c s keys v few r = done none_left
run_from (write node key ∷ rest) c s keys v few r =
    let room : c < 2 ^ 16 = ground (arith, few) in
    let more : fits rest (suc c) s.current_timestamp ≡ true = ground (arith, few) in
    Returns->>= (set_lem v room node key) (λ s' (v', new, old, now).
      run_from rest (suc c) s' _ v' (rw now more) (λ n k e. elim (Bool-cases (n == node)) [
        | inl same ↦
            let z : n ≡ node = ground (arith, same) in
            let k' : key ≡ k = ground (arith, e, same) in
            subst (λ x. Holds s' n x) k' (subst (λ x. Holds s' x key) (sym z) new)
        | inr other ↦ old n k (λ z. ground (arith, other, z)) (r n k (rw other at e))
      ]))
run_from (read node ∷ rest) c s keys v few r =
    let room : c < 2 ^ 16 = ground (arith, few) in
    let more : fits rest (suc c) s.current_timestamp ≡ true = ground (arith, few) in
    Returns->>= (get_lem v room node) (λ p (v', old, found, now).
      Returns->>= (run_from rest (suc c) p.1 keys v' (rw now more) (λ n k e. old n k (r n k e)))
        (λ ks a. done (Agree-next (keys node) p.0 (λ k e. found k (r node k e)) a)))
run_from (reset ∷ rest) c s keys v few r =
    let room : s.current_timestamp + 1 < unsigned_max = ground (arith, few) in
    let more : fits rest 0 (s.current_timestamp + 1) ≡ true = ground (arith, few) in
    let (v', now) = clear_lem c s v room in
    run_from rest 0 (clear s) (λ _. none) v' (rw now more) (λ n k e. ground (arith, e))

new_storage-IsValid : (hasher : XorFastHash) → Filled hasher → IsValid 0 (new_storage hasher)
new_storage-IsValid hasher filled = record {
  size = refl;
  filled = filled;
  now = omega arith;
  times = λ i. inr refl;
  born = λ i. 0;
  born_lt = λ i p t. ground (arith, t);
  born_unique = λ i j p q t t' e. ground (arith, t);
  slots = λ i p t. ground (arith, t);
}

-- Of a new storage with filled hash tables, on which at most 2 ^ 16 accesses are made between two
-- calls of Clear, and fewer than 2 ^ 32 - 1 calls of Clear: all accesses return, and each read of a node
-- that was written since the last Clear returns the key that was written last.
pub run_correct :
    (hasher : XorFastHash) (ops : List Operation)
    → Filled hasher
    → fits ops 0 0 ≡ true
    → Returns (Agree (answers ops (λ _. none))) (run ops (new_storage hasher))
unfolding Represents
run_correct hasher ops filled few =
    run_from ops 0 (new_storage hasher) (λ _. none) (new_storage-IsValid hasher filled) few
      (λ n k e. ground (arith, e))
