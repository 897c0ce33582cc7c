-- ===== src/DataStructures/XorFastHashStorage/Cells.antt =====
-- The cells in use, each where its node is looked for, and what operator[] does to them.
use osrm_backend.Prelude.{
  ℕ, suc, ◌^◌, ◌≤◌, ◌<◌, ◌≡◌, ◌≢◌, ◌⊎◌, inl, inr, sym, true, false, some, arith, ◌==◌,
  if◌then◌else◌, update, Bool-cases,
}
use mathlib.Core.Path.{subst}
use osrm_backend.Prelude.Ranges.{all_or_one}
use osrm_backend.Prelude.Pigeonhole.{pigeonhole}
use osrm_backend.DataStructures.XorFastHash.{table_size, Filled, fast_hash}
use osrm_backend.DataStructures.XorFastHashStorage.{XorFastHashStorage, unsigned_max, taken}
use osrm_backend.DataStructures.XorFastHashStorage.Probe.{current, probe, Way, Slot, Slot-unique}

-- After `c` accesses since the last Clear.
pub record IsValid (c : ℕ) (s : XorFastHashStorage) : Type 0 where
  pub size : s.positions.size ≡ table_size
  pub filled : Filled s.fast_hasher
  pub now : s.current_timestamp < unsigned_max
  pub times :
      (i : ℕ)
      → ((s.positions.at i).time ≤ s.current_timestamp) ⊎ ((s.positions.at i).time ≡ unsigned_max)
  -- The access by which a cell came in use.
  pub born : ℕ → ℕ
  pub born_lt : (i : ℕ) → i < 2 ^ 16 → current s i ≡ true → born i < c
  pub born_unique :
      (i j : ℕ)
      → i < 2 ^ 16
      → j < 2 ^ 16
      → current s i ≡ true
      → current s j ≡ true
      → born i ≡ born j
      → i ≡ j
  pub slots :
      (i : ℕ)
      → i < 2 ^ 16
      → current s i ≡ true
      → (h : ℕ) × (fast_hash s.fast_hasher ((s.positions.at i).id) ≡ some h)
        × Way s ((s.positions.at i).id) h i

-- A cell is left for one more access.
pub free_cell :
    {c : ℕ} {s : XorFastHashStorage}
    → IsValid c s
    → c < 2 ^ 16
    → (i : ℕ) × (i < 2 ^ 16) × (current s i ≡ false)
free_cell {c} {s} v few = elim (all_or_one (current s) (2 ^ 16)) [
  | inr free ↦ free
  | inl all ↦
      let most : 2 ^ 16 ≤ c =
        pigeonhole (2 ^ 16) c v.born (λ i p. v.born_lt i p (all i p))
          (λ i j p q. v.born_unique i j p q (all i p) (all j q)) in
      absurd (omega (arith, few, most))
]

-- The cell `p` now belongs to the node.
abbrev pub put : ℕ → ℕ → ℕ → XorFastHashStorage → XorFastHashStorage
put p node key s = record s {
  positions = record (s.positions) {
    at = update s.positions.at p (record { key = key; id = node; time = s.current_timestamp });
  };
}

-- The node's cell holds the key.
unfoldable pub Holds : XorFastHashStorage → ℕ → ℕ → Type 0
Holds s node key =
    (i : ℕ) × (i < 2 ^ 16)
    × (current s i ≡ true)
    × ((s.positions.at i).id ≡ node)
    × ((s.positions.at i).key ≡ key)

module _ {c : ℕ} {s : XorFastHashStorage} (v : IsValid c s) (node hash p key : ℕ)
    (hashed : fast_hash s.fast_hasher node ≡ some hash) (slot : Slot s node hash p) where
  abbrev after : XorFastHashStorage
  after = put p node key s

  taken-put :
      (m q : ℕ) → taken m s (s.positions.at q) ≡ true → taken m after (after.positions.at q) ≡ true
  unfolding Slot
  taken-put m q t = elim (Bool-cases (q == p)) [
    | inr other ↦ rw other t
    | inl same ↦
        let z : q ≡ p = ground (arith, same) in
        let t' = subst (λ x. taken m s (s.positions.at x) ≡ true) z t in
        let idle : taken node s (s.positions.at p) ≡ false = slot.2 in
        rw same (ground (arith, t', idle))
  ]

  Way-put : (m h q : ℕ) → Way s m h q → Way after m h q
  Way-put m h q w = record {
    steps = w.steps;
    ends = w.ends;
    passed = λ j r. taken-put m (probe h j) (w.passed j r);
  }

  pub put-IsValid : IsValid (suc c) after
  unfolding Slot
  put-IsValid = record {
    size = v.size;
    filled = v.filled;
    now = v.now;
    times = λ i. elim (Bool-cases (i == p)) [
      | inl same ↦ rw same (inl (omega arith))
      | inr other ↦ rw other (v.times i)
    ];
    born = λ i. if i == p then c else v.born i;
    born_lt = λ i r t. ground (arith, t, v.born_lt i r);
    born_unique = λ i j r r' t t' e.
        ground (arith, t, t', e, v.born_lt i r, v.born_lt j r', v.born_unique i j r r');
    slots = λ i r t. elim (Bool-cases (i == p)) [
      | inl same ↦
          let z : p ≡ i = ground (arith, same) in
          rw same (hash, hashed, subst (Way after node hash) z (Way-put node hash p slot.1))
      | inr other ↦ let (h, e, w) = v.slots i r (rw other at t) in rw other (h, e, Way-put _ h i w)
    ];
  }

  pub put-Holds : Holds after node key
  unfolding Holds Slot
  put-Holds = (p, slot.0, ground arith, ground arith, ground arith)

  -- What the cells of the other nodes hold.
  pub put-Holds_other : (m k : ℕ) → m ≢ node → Holds s m k → Holds after m k
  unfolding Holds Slot
  put-Holds_other m k apart (i, r, t, e, f) = elim (Bool-cases (i == p)) [
    | inl same ↦
        let z : i ≡ p = ground (arith, same) in
        let t' = subst (λ x. current s x ≡ true) z t in
        let e' = subst (λ x. (s.positions.at x).id ≡ m) z e in
        let idle : taken node s (s.positions.at p) ≡ false = slot.2 in
        absurd (ground (arith, t', e', idle, apart))
    | inr other ↦ (i, r, rw other t, rw other e, rw other f)
  ]

  -- The cell that is found is the one that holds the node's key.
  pub Holds-found : (k : ℕ) → Holds s node k → (s.positions.at p).key ≡ k
  unfolding Holds Slot
  Holds-found k (i, r, t, e, f) =
      let (h, g, w) = v.slots i r t in
      let g' : fast_hash s.fast_hasher node ≡ some h =
        subst (λ x. fast_hash s.fast_hasher x ≡ some h) e g in
      let same : h ≡ hash = ground (arith, g', hashed) in
      let w' : Way s node hash i =
        subst (λ x. Way s node x i) same (subst (λ x. Way s x h i) e w) in
      let idle : taken node s (s.positions.at i) ≡ false = ground (arith, e) in
      let z : p ≡ i = Slot-unique s node hash p i slot (r, w', idle) in
      subst (λ x. (s.positions.at x).key ≡ k) (sym z) f
