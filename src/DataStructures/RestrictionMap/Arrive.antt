-- ===== src/DataStructures/RestrictionMap/Arrive.antt =====
-- FixupArrivingTurnRestriction: the end of an edge moves.
use osrm_backend.Prelude.{
  ℕ, ◌≡◌, ◌≢◌, Bool, true, false, ◌&&◌, ◌||◌, List, [], ◌∷◌, ◌==◌, if◌then◌else◌, update, ◌⊎◌,
}
use osrm_backend.DataStructures.RestrictionMap.{RestrictionTarget, RestrictionMap, redirect}
use osrm_backend.DataStructures.RestrictionMap.Bucket.{IsValid, bucket_of}

-- Whether a node is in a list.
abbrev pub mem : ℕ → List ℕ → Bool
mem x [] = false
mem x (y ∷ ys) = x == y || mem x ys

-- The map after the end of the edge from `u` to `v` has become `w`, for turns from the nodes `xs`.
record Redirected (u v w : ℕ) (xs : List ℕ) (m n : RestrictionMap) : Type 0 where
  valid : IsValid n
  buckets :
      (x y : ℕ)
      → bucket_of n x y
        ≡ (if mem x xs && y == u then redirect v w (bucket_of m x y) else bucket_of m x y)

-- The turns of a bucket when those into `v` lead to `w` instead.
pub data Renamed (v w : ℕ) : List RestrictionTarget → List RestrictionTarget → Type 0 where
  none_left : Renamed v w [] []
  turned :
      {t : RestrictionTarget} {ts ts' : List RestrictionTarget}
      → t.target_node ≡ v
      → Renamed v w ts ts'
      → Renamed v w (t ∷ ts) (record { target_node = w; is_only = t.is_only } ∷ ts')
  kept :
      {t : RestrictionTarget} {ts ts' : List RestrictionTarget}
      → t.target_node ≢ v
      → Renamed v w ts ts'
      → Renamed v w (t ∷ ts) (t ∷ ts')

-- Turns from the neighbours of `u` other than `v` lead to `w` instead of `v`.
pub record Rerouted (u v w : ℕ) (adjacent : List ℕ) (m n : RestrictionMap) : Type 0 where
  pub valid : IsValid n
  pub turns :
      (x : ℕ) → mem x adjacent ≡ true → x ≢ v → Renamed v w (bucket_of m x u) (bucket_of n x u)
  pub others :
      (x y : ℕ) → (mem x adjacent ≡ false) ⊎ ((x ≡ v) ⊎ (y ≢ u)) → bucket_of n x y ≡ bucket_of m x y

module _ (u v w : ℕ) where
  abbrev set_bucket : RestrictionMap → ℕ → List RestrictionTarget → RestrictionMap
  set_bucket m i b = record m {
    restriction_bucket_list = record (m.restriction_bucket_list) {
      at = update m.restriction_bucket_list.at i b;
    };
  }
