-- ===== src/DataStructures/XorFastHashStorage/Access.antt =====
-- Reading, writing and clearing the storage.
use osrm_backend.Prelude.{
  ℕ, suc, ◌+◌, ◌%◌, ◌^◌, ◌<◌, ◌≡◌, ◌≢◌, inl, inr, refl, sym, ap, true, false, some, arith, ltb,
  ◌==◌, update, Returns, done, Returns->>=, Bool-cases, value_of,
}
use mathlib.Core.Path.{subst}
use osrm_backend.DataStructures.XorFastHash.{fast_hash, fast_hash_lem}
use osrm_backend.DataStructures.XorFastHashStorage.{
  HashCell, XorFastHashStorage, unsigned_max, access, rounds, set, get, clear,
}
use osrm_backend.DataStructures.XorFastHashStorage.Probe.{Slot, find_lem}
use osrm_backend.DataStructures.XorFastHashStorage.Cells.{
  IsValid, free_cell, put, Holds, put-IsValid, put-Holds, put-Holds_other, Holds-found,
}

-- A second write to a cell.
update_again :
    {A : Type 0} (f : ℕ → A) (i : ℕ) (a b : A) (j : ℕ)
    → update (update f i a) i b j ≡ update f i b j
update_again f i a b j = elim (Bool-cases (j == i)) [
  | inl same ↦ rw same refl
  | inr other ↦ rw other refl
]

update_twice : {A : Type 0} (f : ℕ → A) (i : ℕ) (a b : A) → update (update f i a) i b ≡ update f i b
update_twice f i a b = λ t j. update_again f i a b j t

-- The assignment behind operator[].
assigned : ℕ → ℕ → XorFastHashStorage → XorFastHashStorage
assigned p key s = record s {
  positions = record (s.positions) {
    at = update s.positions.at p (record (s.positions.at p) { key = key });
  };
}

assigned-put :
    (p node k key : ℕ) (s : XorFastHashStorage) → assigned p key (put p node k s) ≡ put p node key s
unfolding assigned
assigned-put p node k key s =
    let here : (p == p) ≡ true = ground arith in
    let old : HashCell = record { key = k; id = node; time = s.current_timestamp } in
    let new : HashCell = record { key = key; id = node; time = s.current_timestamp } in
    rw here (
      ap (λ f. record s { positions = record (s.positions) { at = f } })
        (update_twice s.positions.at p old new))

-- What operator[] finds, and what it leaves.
record Found (node : ℕ) (s : XorFastHashStorage) (r : ℕ × XorFastHashStorage) : Type 0 where
  hash : ℕ
  hashed : fast_hash s.fast_hasher node ≡ some hash
  slot : Slot s node hash r.0
  leaves : r.1 ≡ put r.0 node (s.positions.at r.0).key s

module _ {c : ℕ} {s : XorFastHashStorage} (v : IsValid c s) (few : c < 2 ^ 16) (node : ℕ) where
  access_lem : Returns (Found node s) (access rounds node s)
  unfolding access Slot
  access_lem =
      let (h, e, p) =
        value_of (fast_hash_lem s.fast_hasher node v.filled.table1_le v.filled.table2_le) in
      let (free, q, c) = free_cell v few in
      rw e (
        Returns->>= (find_lem s node h free v.size p q c) (λ position slot.
          let inside : ltb position s.positions.size ≡ true = ground (arith, v.size, slot.0) in
          rw inside (done (record { hash = h; hashed = e; slot = slot; leaves = refl }))))

  -- Reading keeps the keys of all nodes, and answers the node's.
  pub get_lem :
      Returns
        (λ r.
          IsValid (suc c) r.1
          × ((m k : ℕ) → Holds s m k → Holds r.1 m k)
          × ((k : ℕ) → Holds s node k → r.0 ≡ k)
          × (r.1.current_timestamp ≡ s.current_timestamp))
        (get node s)
  unfolding get Slot
  get_lem = Returns->>= access_lem (λ r f.
      let inside : ltb r.0 s.positions.size ≡ true = ground (arith, v.size, f.slot.0) in
      let here : (r.0 == r.0) ≡ true = ground arith in
      let key = (s.positions.at r.0).key in
      let found = Holds-found v node f.hash r.0 key f.hashed f.slot in
      rw (f.leaves, inside, here)
        (done (
          put-IsValid v node f.hash r.0 key f.hashed f.slot,
          (λ m k held. elim (Bool-cases (m == node)) [
            | inl same ↦
                let e : m ≡ node = ground (arith, same) in
                let after = put r.0 node key s in
                subst (λ x. Holds after x k) (sym e)
                  (subst (Holds after node) (found k (subst (λ x. Holds s x k) e held))
                    (put-Holds v node f.hash r.0 key f.hashed f.slot))
            | inr other ↦
                put-Holds_other v node f.hash r.0 key f.hashed f.slot m k
                  (λ e. ground (arith, other, e)) held
          ]),
          found,
          refl,
        )))

  -- Writing sets the key of the node, and keeps those of the others.
  unfoldable pub Sets : ℕ → XorFastHashStorage → Type 0
  Sets key s' =
      IsValid (suc c) s'
      × Holds s' node key
      × ((m k : ℕ) → m ≢ node → Holds s m k → Holds s' m k)
      × (s'.current_timestamp ≡ s.current_timestamp)

  pub set_lem : (key : ℕ) → Returns (Sets key) (set node key s)
  unfolding set Slot Sets assigned
  set_lem key = Returns->>= access_lem (λ r f.
      let inside : ltb r.0 s.positions.size ≡ true = ground (arith, v.size, f.slot.0) in
      rw (f.leaves, inside)
        (subst (λ x. Returns (Sets key) (some x))
          (sym (assigned-put r.0 node (s.positions.at r.0).key key s))
          (done (
            put-IsValid v node f.hash r.0 key f.hashed f.slot,
            put-Holds v node f.hash r.0 key f.hashed f.slot,
            (λ m k apart held.
                put-Holds_other v node f.hash r.0 key f.hashed f.slot m k apart held),
            refl,
          ))))

-- Clear ends the use of all cells, as long as the timestamp does not come to its last value.
pub clear_lem :
    (c : ℕ) (s : XorFastHashStorage)
    → IsValid c s
    → s.current_timestamp + 1 < unsigned_max
    → IsValid 0 (clear s) × ((clear s).current_timestamp ≡ s.current_timestamp + 1)
unfolding clear
clear_lem c s v p =
    let z : (s.current_timestamp + 1) % 2 ^ 32 ≡ s.current_timestamp + 1 = omega (arith, p) in
    let go : (unsigned_max == (s.current_timestamp + 1)) ≡ false = ground (arith, p) in
    let unused : (i : ℕ)
        → i < 2 ^ 16
        → ((s.positions.at i).time == s.current_timestamp + 1) ≡ true
        → ⊥ =
      λ i q t. ground (arith, v.times i, t, p) in
    rw (z, go)
      (
        record {
          size = v.size;
          filled = v.filled;
          now = p;
          times = λ i. elim (v.times i) [ inl a ↦ inl (omega (arith, a)) | inr a ↦ inr a ];
          born = λ i. 0;
          born_lt = λ i q t. absurd (unused i q t);
          born_unique = λ i j q q' t t' e. absurd (unused i q t);
          slots = λ i q t. absurd (unused i q t);
        },
        refl,
      )
