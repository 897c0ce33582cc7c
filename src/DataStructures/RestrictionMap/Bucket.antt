-- ===== src/DataStructures/RestrictionMap/Bucket.antt =====
-- The invariant of the map, and the bucket of a start edge as an abstract view of it.
use osrm_backend.Prelude.{
  ℕ, ◌+◌, ◌<◌, ◌≡◌, ◌≢◌, refl, true, false, ◌&&◌, ◌||◌, Option, none, some, List, [], ◌∷◌, ◌++◌,
  arith, ◌==◌, if◌then◌else◌, update, length, ◌-◌, Returns, done, Option-cases, Bool-cases, inl,
  inr,
}
use osrm_backend.DataStructures.RestrictionMap.{
  TurnRestriction, RestrictionTarget, RestrictionMap, add_restriction, target_of, put, insert,
}

-- The targets of the edge from `u` to `v`.
abbrev pub bucket_of : RestrictionMap → ℕ → ℕ → List RestrictionTarget
bucket_of m u v = elim (m.restriction_map u v) [
  | none ↦ []
  | some i ↦ m.restriction_bucket_list.at i
]

-- Each edge of the map has a bucket of its own, which is there and not empty, and its start is
-- recorded.
pub record IsValid (m : RestrictionMap) : Type 0 where
  pub in_range : (u v i : ℕ) → m.restriction_map u v ≡ some i → i < m.restriction_bucket_list.size
  pub own_start :
      (u v x y i : ℕ) → m.restriction_map u v ≡ some i → m.restriction_map x y ≡ some i → u ≡ x
  pub own_via :
      (u v x y i : ℕ) → m.restriction_map u v ≡ some i → m.restriction_map x y ≡ some i → v ≡ y
  pub filled : (u v i : ℕ) → m.restriction_map u v ≡ some i → m.restriction_bucket_list.at i ≢ []
  pub recorded : (u v i : ℕ) → m.restriction_map u v ≡ some i → m.restriction_start_nodes u ≡ true

-- What one more restriction makes of its bucket: an only-restriction stays alone, and takes the
-- place of all others.
abbrev pub extend : List RestrictionTarget → TurnRestriction → List RestrictionTarget
extend [] r = target_of r ∷ []
extend (t ∷ ts) r =
    if t.is_only
    then t ∷ ts
    else if r.is_only
    then target_of r ∷ []
    else (t ∷ ts) ++ (target_of r ∷ [])

-- The map after one restriction.
pub record Added (r : TurnRestriction) (m n : RestrictionMap) : Type 0 where
  pub valid : IsValid n
  pub buckets :
      (u v : ℕ)
      → bucket_of n u v ≡ (
          if u == r.from_node && v == r.via_node
          then extend (bucket_of m u v) r
          else bucket_of m u v)
  pub vias : (u : ℕ) → n.no_turn_via_node_set u ≡ (u == r.via_node || m.no_turn_via_node_set u)

module _ (r : TurnRestriction) {m : RestrictionMap} (v : IsValid m) where
  -- The map with the restriction's nodes recorded, the bucket `i` set, and another map.
  abbrev with_bucket : ℕ → ℕ → (ℕ → List RestrictionTarget) → (ℕ → ℕ → Option ℕ) → RestrictionMap
  with_bucket count size buckets f = record {
    count = count;
    restriction_bucket_list = record { size = size; at = buckets };
    restriction_map = f;
    restriction_start_nodes = insert m.restriction_start_nodes r.from_node;
    no_turn_via_node_set = insert m.no_turn_via_node_set r.via_node;
  }

  abbrev buckets_of : ℕ → List RestrictionTarget
  buckets_of = m.restriction_bucket_list.at

  abbrev fresh : ℕ
  fresh = m.restriction_bucket_list.size

  -- The first restriction of its edge.
  abbrev started : RestrictionMap
  started =
      with_bucket (m.count + 1) (fresh + 1)
        (update (update buckets_of fresh []) fresh
          (update buckets_of fresh [] fresh ++ (target_of r ∷ [])))
        (put m.restriction_map r.from_node r.via_node (some fresh))

  add_first : m.restriction_map r.from_node r.via_node ≡ none → add_restriction r m ≡ some started
  unfolding add_restriction
  add_first e = rw (e, add_restriction) (ground arith)

  started-Added : m.restriction_map r.from_node r.via_node ≡ none → Added r m started
  started-Added e = record {
    valid = record {
      in_range = λ a b i p. ground (arith, v.in_range a b i);
      own_start = λ a b x y i p q.
          ground (arith, v.own_start a b x y i, v.in_range a b i, v.in_range x y i);
      own_via =
          λ a b x y i p q. ground (arith, v.own_via a b x y i, v.in_range a b i, v.in_range x y i);
      filled = λ a b i p. ground (arith, v.filled a b i, v.in_range a b i);
      recorded = λ a b i p. ground (arith, v.recorded a b i);
    };
    buckets = λ a b. elim (Option-cases (m.restriction_map a b)) [
      | inl n ↦ ground arith
      | inr (i, n) ↦ ground (arith, v.in_range a b i)
    ];
    vias = λ a. refl;
  }

  extend-ne-nil : (b : List RestrictionTarget) → extend b r ≢ []
  extend-ne-nil [] = λ e. cc
  extend-ne-nil (t ∷ ts) = λ e. ground arith

  -- A later restriction of an edge: its bucket `i` is extended, and no other bucket is touched.
  module _ (i : ℕ) (e : m.restriction_map r.from_node r.via_node ≡ some i) where
    changed-Added :
        (c : ℕ) (f : ℕ → List RestrictionTarget)
        → f i ≡ extend (buckets_of i) r
        → ((j : ℕ) → j ≢ i → f j ≡ buckets_of j)
        → Added r m (with_bucket c fresh f m.restriction_map)
    changed-Added c f here there = record {
      valid = record {
        in_range = v.in_range;
        own_start = v.own_start;
        own_via = v.own_via;
        filled =
            λ a b j p. ground (arith, v.filled a b j, here, there j, extend-ne-nil (buckets_of i));
        recorded = λ a b j p. ground (arith, v.recorded a b j);
      };
      buckets = λ a b. elim (Option-cases (m.restriction_map a b)) [
        | inl n ↦ ground arith
        | inr (j, n) ↦ ground (
          arith,
          here,
          there j,
          v.own_start a b r.from_node r.via_node i,
          v.own_via a b r.from_node r.via_node i,
        )
      ];
      vias = λ a. refl;
    }

    abbrev appended : ℕ → List RestrictionTarget
    appended = update buckets_of i (buckets_of i ++ (target_of r ∷ []))

    abbrev cleared : ℕ → List RestrictionTarget
    cleared = update buckets_of i []

    abbrev replaced : ℕ → List RestrictionTarget
    replaced = update cleared i (cleared i ++ (target_of r ∷ []))

    adds_at :
        (b : List RestrictionTarget) → buckets_of i ≡ b → Returns (Added r m) (add_restriction r m)
    adds_at [] z = absurd (v.filled r.from_node r.via_node i e z)
    adds_at (t ∷ ts) z = elim (Bool-cases t.is_only) [
      | inl o ↦ rw (keep o) (done (changed-Added m.count buckets_of (ground arith) (λ j n. refl)))
      | inr o ↦ elim (Bool-cases r.is_only) [
        | inl q ↦
            rw (take o q) (done (changed-Added _ replaced (ground arith) (λ j n. ground arith)))
        | inr q ↦
            rw (join o q) (done (changed-Added _ appended (ground arith) (λ j n. ground arith)))
      ]
    ]
      where
        inside : i < fresh
        inside = v.in_range r.from_node r.via_node i e

        keep :
            t.is_only ≡ true
            → add_restriction r m ≡ some (with_bucket m.count fresh buckets_of m.restriction_map)
        keep o = unfold add_restriction in rw (e, add_restriction) (ground (arith, inside, z, o))

        take :
            t.is_only ≡ false
            → r.is_only ≡ true
            → add_restriction r m
              ≡ some (
                  with_bucket
                    (m.count - length (buckets_of i) + 1)
                    fresh
                    replaced
                    m.restriction_map)
        take o q =
            unfold add_restriction in rw (e, add_restriction) (ground (arith, inside, z, o, q))

        join :
            t.is_only ≡ false
            → r.is_only ≡ false
            → add_restriction r m
              ≡ some (with_bucket (m.count + 1) fresh appended m.restriction_map)
        join o q =
            unfold add_restriction in rw (e, add_restriction) (ground (arith, inside, z, o, q))

  -- One restriction of the constructor's list: the loop's body does not fail, keeps the invariant,
  -- extends the bucket of the restriction's own edge, and changes no other edge's bucket.
  pub add_restriction_lem : Returns (Added r m) (add_restriction r m)
  add_restriction_lem = elim (Option-cases (m.restriction_map r.from_node r.via_node)) [
    | inl e ↦ rw (add_first e) (done (started-Added e))
    | inr (i, e) ↦ adds_at i e (buckets_of i) refl
  ]
