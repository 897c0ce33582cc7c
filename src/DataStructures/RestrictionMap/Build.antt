-- ===== src/DataStructures/RestrictionMap/Build.antt =====
-- The constructor and the two queries, against the list of restrictions.
use osrm_backend.Prelude.{
  ℕ, ◌≡◌, refl, ◌∙◌, Bool, true, false, ◌&&◌, ◌||◌, Option, none, some, List, [], ◌∷◌, ◌++◌, map,
  arith, ◌==◌, if◌then◌else◌, All, Returns, done, Returns->>=, Returns-weaken, Bool-cases, inl, inr,
}
use mathlib.Core.List.{append-nil, append_assoc}
use osrm_backend.DataStructures.RestrictionMap.{
  TurnRestriction, RestrictionTarget, RestrictionMap, add_restrictions, new_map, empty_map,
  target_of,
}
use osrm_backend.DataStructures.RestrictionMap.Bucket.{
  IsValid, bucket_of, extend, add_restriction_lem,
}

-- The restrictions of the edge from `u` to `v`.
abbrev pub restrictions_at : ℕ → ℕ → List TurnRestriction → List TurnRestriction
restrictions_at u v [] = []
restrictions_at u v (r ∷ rs) =
    if u == r.from_node && v == r.via_node
    then r ∷ restrictions_at u v rs
    else restrictions_at u v rs

-- The first only-restriction.
abbrev pub first_only : List TurnRestriction → Option TurnRestriction
first_only [] = none
first_only (r ∷ rs) = if r.is_only then some r else first_only rs

abbrev pub leads_to : ℕ → List TurnRestriction → Bool
leads_to w [] = false
leads_to w (r ∷ rs) = w == r.to_node || leads_to w rs

-- What the bucket of an edge should hold: its first only-restriction, if it has one, and else all
-- its restrictions in order.
abbrev pub targets_among : Option TurnRestriction → List TurnRestriction → List RestrictionTarget
targets_among none rs = map target_of rs
targets_among (some r) rs = target_of r ∷ []

abbrev pub targets_at : ℕ → ℕ → List TurnRestriction → List RestrictionTarget
targets_at u v rs = targets_among (first_only (restrictions_at u v rs)) (restrictions_at u v rs)

abbrev extend_all : List RestrictionTarget → List TurnRestriction → List RestrictionTarget
extend_all b [] = b
extend_all b (r ∷ rs) = extend_all (extend b r) rs

record Built (rs : List TurnRestriction) (m n : RestrictionMap) : Type 0 where
  valid : IsValid n
  buckets : (u v : ℕ) → bucket_of n u v ≡ extend_all (bucket_of m u v) (restrictions_at u v rs)

add_restrictions_lem :
    (rs : List TurnRestriction) {m : RestrictionMap}
    → IsValid m
    → Returns (Built rs m) (add_restrictions rs m)
unfolding add_restrictions
add_restrictions_lem [] v = done (record { valid = v; buckets = λ a b. refl })
add_restrictions_lem (r ∷ rs) v = Returns->>= (add_restriction_lem r v) (λ n s.
    Returns-weaken (add_restrictions_lem rs s.valid) (λ k t. record {
      valid = t.valid;
      buckets = λ a b. ground (arith, s.buckets a b, t.buckets a b);
    }))

extend_all_only :
    (t : RestrictionTarget) (rs : List TurnRestriction)
    → t.is_only ≡ true
    → extend_all (t ∷ []) rs ≡ t ∷ []
extend_all_only t [] o = refl
extend_all_only t (r ∷ rs) o = ground (arith, extend_all_only t rs o)

abbrev IsPlain : RestrictionTarget → Type 0
IsPlain t = t.is_only ≡ false

All-snoc :
    (b : List RestrictionTarget) (t : RestrictionTarget)
    → All IsPlain b
    → IsPlain t
    → All IsPlain (b ++ (t ∷ []))
All-snoc [] t h p = (p, tt)
All-snoc (x ∷ b) t h p = (h.0, All-snoc b t h.1 p)

extend_plain :
    (b : List RestrictionTarget) (r : TurnRestriction)
    → All IsPlain b
    → extend b r ≡ (if r.is_only then target_of r ∷ [] else b ++ (target_of r ∷ []))
extend_plain [] r h = ground arith
extend_plain (t ∷ b) r h = ground (arith, h.0)

extend_all_plain :
    (b : List RestrictionTarget) (rs : List TurnRestriction)
    → All IsPlain b
    → extend_all b rs ≡ elim (first_only rs) as (λ o. List RestrictionTarget) [
      | none ↦ b ++ map target_of rs
      | some r ↦ target_of r ∷ []
    ]
extend_all_plain b [] h = rw append-nil
extend_all_plain b (r ∷ rs) h = elim (Bool-cases r.is_only) [
  | inl o ↦ ground (arith, extend_plain b r h, extend_all_only (target_of r) rs)
  | inr o ↦ ground (
    arith,
    extend_plain b r h,
    extend_all_plain (b ++ (target_of r ∷ [])) rs (All-snoc b (target_of r) h o),
    append_assoc b (target_of r ∷ []) (map target_of rs),
  )
]

empty_map-IsValid : IsValid empty_map
empty_map-IsValid = record {
  in_range = λ u v i e. cc;
  own_start = λ u v x y i e f. cc;
  own_via = λ u v x y i e f. cc;
  filled = λ u v i e. cc;
  recorded = λ u v i e. cc;
}

-- What the constructor makes of a list of restrictions.
pub record Represents (rs : List TurnRestriction) (m : RestrictionMap) : Type 0 where
  pub valid : IsValid m
  pub buckets : (u v : ℕ) → bucket_of m u v ≡ targets_at u v rs

-- The constructor never fails, whatever the list. The bucket of each edge then holds the edge's first
-- only-restriction alone, if it has one, and else all its restrictions in the list's order.
pub new_map_correct : (rs : List TurnRestriction) → Returns (Represents rs) (new_map rs)
unfolding new_map
new_map_correct rs = Returns-weaken (add_restrictions_lem rs empty_map-IsValid) (λ m s. record {
  valid = s.valid;
  buckets = λ u v.
      s.buckets u v
      ∙ extend_all_plain [] (restrictions_at u v rs) tt
      ∙ same (first_only (restrictions_at u v rs)) (restrictions_at u v rs);
})
  where
    same :
        (o : Option TurnRestriction) (rs : List TurnRestriction)
        → (elim o as (λ o. List RestrictionTarget) [
          | none ↦ [] ++ map target_of rs
          | some r ↦ target_of r ∷ []
        ])
          ≡ targets_among o rs
    same none rs = refl
    same (some r) rs = refl
