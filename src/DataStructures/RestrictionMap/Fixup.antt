-- ===== src/DataStructures/RestrictionMap/Fixup.antt =====
-- FixupStartingTurnRestriction: the start of an edge moves.
use osrm_backend.Prelude.{
  ℕ, ◌≡◌, ◌≢◌, ◌&&◌, ◌||◌, none, some, List, [], arith, ◌==◌, if◌then◌else◌, Option-cases, inl, inr,
  Returns, done,
}
use osrm_backend.DataStructures.RestrictionMap.{
  RestrictionTarget, RestrictionMap, special_nodeid, put, emplace, is_source_node,
  fixup_starting_turn_restriction,
}
use osrm_backend.DataStructures.RestrictionMap.Bucket.{IsValid, bucket_of}

-- Three node ids that are not SPECIAL_NODEID.
abbrev pub AreReal : ℕ → ℕ → ℕ → Type 0
AreReal u v w = (u ≢ special_nodeid) × (v ≢ special_nodeid) × (w ≢ special_nodeid)

-- The bucket that an edge from `u` to `w` has after the edge from `v` to `w` has moved there: its
-- own, if it had one.
abbrev pub taken_over : ℕ → ℕ → ℕ → RestrictionMap → List RestrictionTarget
taken_over u v w m = elim (m.restriction_map u w) [
  | none ↦ bucket_of m v w
  | some i ↦ bucket_of m u w
]

-- The map after the edge from `v` to `w` starts at `u` instead.
pub record Restarted (u v w : ℕ) (m n : RestrictionMap) : Type 0 where
  pub valid : IsValid n
  pub buckets :
      (x y : ℕ)
      → bucket_of n x y ≡ (
          if x == u && y == w
          then taken_over u v w m
          else if x == v && y == w
          then []
          else bucket_of m x y)

module _ (u v w : ℕ) {m : RestrictionMap} (val : IsValid m) (ne : u ≢ v) where
  abbrev moved : ℕ → RestrictionMap
  moved i = record m {
    restriction_map = emplace (put m.restriction_map v w none) u w i;
    restriction_start_nodes = λ x. x == u || m.restriction_start_nodes x;
  }

  moved-IsValid : (i : ℕ) → m.restriction_map v w ≡ some i → IsValid (moved i)
  moved-IsValid i e = elim (Option-cases (m.restriction_map u w)) [
    | inl n ↦ record {
      in_range = λ a b j p. ground (arith, n, val.in_range a b j, val.in_range v w i);
      own_start = λ a b x y j p q. ground (
        arith,
        n,
        val.own_start a b x y j,
        val.own_start a b v w i,
        val.own_start x y v w i,
        val.own_via a b v w i,
        val.own_via x y v w i,
      );
      own_via = λ a b x y j p q. ground (
        arith,
        n,
        val.own_via a b x y j,
        val.own_start a b v w i,
        val.own_start x y v w i,
        val.own_via a b v w i,
        val.own_via x y v w i,
      );
      filled = λ a b j p. ground (arith, n, val.filled a b j, val.filled v w i);
      recorded = λ a b j p. ground (arith, n, val.recorded a b j);
    }
    | inr (k, n) ↦ record {
      in_range = λ a b j p. ground (arith, n, val.in_range a b j);
      own_start = λ a b x y j p q. ground (arith, n, val.own_start a b x y j);
      own_via = λ a b x y j p q. ground (arith, n, val.own_via a b x y j);
      filled = λ a b j p. ground (arith, n, val.filled a b j);
      recorded = λ a b j p. ground (arith, n, val.recorded a b j);
    }
  ]

  moved-Restarted : (i : ℕ) → m.restriction_map v w ≡ some i → Restarted u v w m (moved i)
  moved-Restarted i e = record {
    valid = moved-IsValid i e;
    buckets = λ x y. elim (Option-cases (m.restriction_map u w)) [
      | inl n ↦ ground (arith, n, e)
      | inr (k, n) ↦ ground (arith, n, e)
    ];
  }

  same-Restarted : m.restriction_map v w ≡ none → Restarted u v w m m
  same-Restarted e = record {
    valid = val;
    buckets = λ x y. elim (Option-cases (m.restriction_map u w)) [
      | inl n ↦ ground (arith, n, e)
      | inr (k, n) ↦ ground (arith, n, e)
    ];
  }

  -- Moving the start of the edge from `v` to `w` to another node `u`, for three ids that are not
  -- SPECIAL_NODEID, keeps the invariant. The new edge
  -- gets the old edge's bucket, unless it had one of its own, which it then keeps; the old edge is
  -- left without a bucket, and no other bucket changes.
  pub fixup_starting_correct :
      AreReal u v w → Returns (Restarted u v w m) (fixup_starting_turn_restriction u v w m)
  unfolding fixup_starting_turn_restriction is_source_node
  fixup_starting_correct real = elim (Option-cases (m.restriction_map v w)) [
    | inl e ↦
        let eq : fixup_starting_turn_restriction u v w m ≡ some m = ground (arith, e, real) in
        rw eq (done (same-Restarted e))
    | inr (i, e) ↦
        let eq : fixup_starting_turn_restriction u v w m ≡ some (moved i) =
          ground (arith, e, real, val.recorded v w i) in
        rw eq (done (moved-Restarted i e))
  ]
