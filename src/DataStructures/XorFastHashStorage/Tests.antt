-- ===== src/DataStructures/XorFastHashStorage/Tests.antt =====
-- Some accesses with a reset between them.
use osrm_backend.Prelude.{true, ◌≡◌, ◌-◌, refl, none, some, arith, List, [], ◌∷◌, Returns}
use osrm_backend.DataStructures.XorFastHash.{XorFastHash, new_hash, Filled, new_hash-Filled}
use osrm_backend.DataStructures.XorFastHashStorage.{
  XorFastHashStorage, unsigned_max, new_storage, access, clear,
}
use osrm_backend.DataStructures.XorFastHashStorage.Replay.{
  Operation, write, read, reset, run, answers, fits, Agree, run_correct,
}
use osrm_backend.DataStructures.XorFastHashStorage.Overflow.{access_endless}

abbrev hasher : XorFastHash
hasher = new_hash (λ table. table) (λ table. table)

hasher-Filled : Filled hasher
hasher-Filled = new_hash-Filled (λ table. table) (λ table. table) (λ t. refl) (λ t. refl)

-- The nodes 3 and 2 ^ 16 + 2 have the same hash.
abbrev operations : List Operation
operations =
    write 3 7
    ∷ write 65538 8
    ∷ read 3
    ∷ reset
    ∷ read 3
    ∷ write 65538 1
    ∷ write 3 2
    ∷ read 65538
    ∷ read 3
    ∷ []

operations_fit : fits operations 0 0 ≡ true
unfolding fits
operations_fit = refl

expected : answers operations (λ _. none) ≡ some 7 ∷ none ∷ some 1 ∷ some 2 ∷ []
unfolding answers
expected = refl

run_correct_example :
    Returns (Agree (answers operations (λ _. none))) (run operations (new_storage hasher))
run_correct_example = run_correct hasher operations hasher-Filled operations_fit

abbrev last_but_one : XorFastHashStorage
last_but_one = record (new_storage hasher) { current_timestamp = unsigned_max - 1 }

access_endless_example : access 100000 5 (clear last_but_one) ≡ none
access_endless_example =
    access_endless 100000 5 last_but_one hasher-Filled refl (λ e. ground (arith, e))
