-- ===== src/DataStructures/BinaryHeap/Sift.antt =====
-- Both sifting loops: one round of each, the loop, and the placing of the element.
use osrm_backend.Prelude.{ℕ, ◌/◌, ◌^◌, ◌≤◌, ◌<◌, ◌≡◌, ◌≢◌, arith}
use osrm_backend.DataStructures.BinaryHeap.{BinaryHeap}
use osrm_backend.DataStructures.BinaryHeap.Invariant.{wt, ix, ky, Linked, Ordered, put, moved}

module _ {D : Type 0} where
  -- All positions from 1 on are filled; the node `x` is about to leave the heap.
  pub record Closed (h : BinaryHeap D) (x : ℕ) : Type 0 where
    pub nonempty : 1 ≤ h.heap.size
    pub bounded : h.heap.size < 2 ^ 31
    pub sentinel : wt h 0 ≡ 0
    pub order : (i : ℕ) → 2 ≤ i → i < h.heap.size → wt h (i / 2) ≤ wt h i
    pub index_lt : (i : ℕ) → 1 ≤ i → i < h.heap.size → ix h i < h.inserted_nodes.size
    pub index_ne : (i : ℕ) → 1 ≤ i → i < h.heap.size → ix h i ≢ x
    pub key_index : (i : ℕ) → 1 ≤ i → i < h.heap.size → ky h (ix h i) ≡ i
    pub weight_index :
        (i : ℕ) → 1 ≤ i → i < h.heap.size → (h.inserted_nodes.at (ix h i)).weight ≡ wt h i
    pub key_lt : (j : ℕ) → j < h.inserted_nodes.size → j ≢ x → ky h j ≢ 0 → ky h j < h.heap.size
    pub index_key : (j : ℕ) → j < h.inserted_nodes.size → j ≢ x → ky h j ≢ 0 → ix h (ky h j) ≡ j

  -- The waiting weight is no more than the children's, and no less than the parent's.
  abbrev pub Below : BinaryHeap D → ℕ → ℕ → Type 0
  Below h key w = (i : ℕ) → i < h.heap.size → i / 2 ≡ key → 2 ≤ i → w ≤ wt h i

  abbrev pub Above : BinaryHeap D → ℕ → ℕ → Type 0
  Above h key w = 2 ≤ key → wt h (key / 2) ≤ w

  module _ {h : BinaryHeap D} {key r x : ℕ} (l : Linked h key r x) (o : Ordered h key) (w : ℕ) where
    pub put-Closed :
        r ≢ x
        → Below h key w
        → Above h key w
        → (h.inserted_nodes.at r).weight ≡ w
        → Closed (put h key (record { index = r; weight = w })) x
    put-Closed n b a e = record {
      nonempty = omega (arith, l.inside);
      bounded = o.bounded;
      sentinel = ground (arith, o.sentinel, l.positive);
      order = λ i p q. ground (arith, o.order i, b i, a);
      index_lt = λ i p q. ground (arith, l.index_lt i, l.waiting);
      index_ne = λ i p q. ground (arith, l.index_ne i);
      key_index = λ i p q. ground (arith, l.key_index i, l.index_ne i);
      weight_index = λ i p q. ground (arith, l.weight_index i, l.index_ne i);
      key_lt = λ j p m q. ground (arith, l.key_lt j, l.inside);
      index_key = λ j p m q. ground (arith, l.key_lt j, l.index_key j);
    }

    -- The parent is heavier and moves down.
    module _ (heavier : w < wt h (key / 2)) where
      pub parent_pos : 1 ≤ key / 2
      parent_pos = ground (arith, o.sentinel)

      pub up-Ordered : Ordered (moved h key (key / 2)) (key / 2)
      up-Ordered = record {
        bounded = o.bounded;
        sentinel = ground (arith, o.sentinel, parent_pos);
        order = λ i p q m n. ground (arith, o.order i, o.across i, parent_pos);
        across = λ i p e q.
            ground (arith, o.order i, o.order (key / 2), o.across i, parent_pos, l.inside);
      }

      pub up-Below : Below h key w → Below (moved h key (key / 2)) (key / 2) w
      up-Below b i p e q = ground (arith, o.order i, parent_pos)

    -- The child `c` is no heavier than its sibling, and moves up.
    module _ (c : ℕ) (c_lt : c < h.heap.size) (child : c / 2 ≡ key)
        (least : (i : ℕ) → i < h.heap.size → i / 2 ≡ key → 2 ≤ i → wt h c ≤ wt h i) where
      pub down-Ordered : Ordered (moved h key c) c
      down-Ordered = record {
        bounded = o.bounded;
        sentinel = ground (arith, o.sentinel, l.positive);
        order = λ i p q m n. ground (arith, o.order i, o.across c, least i, l.positive);
        across = λ i p e q. ground (arith, o.order i, l.positive);
      }

      pub down-Above : wt h c < w → Above (moved h key c) c w
      down-Above p q = ground arith
