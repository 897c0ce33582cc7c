-- ===== src/Contractor/Contractor/Independence/Neighbours.antt =====
-- The list of neighbours keeps its elements when it is sorted and when duplicates are removed.
use osrm_backend.Prelude.{
  ℕ, ◌≡◌, ◌⊎◌, inl, inr, refl, arith, List, [], ◌∷◌, ◌++◌, leb, ◌==◌, Bool-cases,
}
use osrm_backend.Contractor.Contractor.Independence.{insert_sorted, sort, unique}

-- An element of the list.
pub data IsIn (a : ℕ) : List ℕ → Type 0 where
  first : {xs : List ℕ} → IsIn a (a ∷ xs)
  later : {x : ℕ} {xs : List ℕ} → IsIn a xs → IsIn a (x ∷ xs)

pub IsIn-append : {a : ℕ} {xs : List ℕ} (ys : List ℕ) → IsIn a xs → IsIn a (xs ++ ys)
IsIn-append ys first = first
IsIn-append ys (later m) = later (IsIn-append ys m)

pub IsIn-append_right : {a : ℕ} (xs : List ℕ) → IsIn a (xs ++ (a ∷ []))
IsIn-append_right [] = first
IsIn-append_right (x ∷ xs) = later (IsIn-append_right xs)

pub IsIn-append_cases : {a b : ℕ} (xs : List ℕ) → IsIn a (xs ++ (b ∷ [])) → IsIn a xs ⊎ (a ≡ b)
IsIn-append_cases [] first = inr refl
IsIn-append_cases [] (later m) = elim m [ ]
IsIn-append_cases (x ∷ xs) first = inl first
IsIn-append_cases (x ∷ xs) (later m) = elim (IsIn-append_cases xs m) [
  | inl k ↦ inl (later k)
  | inr e ↦ inr e
]

pub IsIn-cases : {a x : ℕ} {xs : List ℕ} → IsIn a (x ∷ xs) → (x ≡ a) ⊎ IsIn a xs
IsIn-cases first = inl refl
IsIn-cases (later m) = inr m

-- The first two elements in the other order.
swap :
    {a x y : ℕ} {xs ys : List ℕ}
    → (IsIn a (x ∷ xs) → IsIn a ys)
    → IsIn a (x ∷ y ∷ xs)
    → IsIn a (y ∷ ys)
swap f first = later (f first)
swap f (later first) = first
swap f (later (later k)) = later (f (later k))

in_tail : {a x : ℕ} {xs ys : List ℕ} → (IsIn a xs → IsIn a ys) → IsIn a (x ∷ xs) → IsIn a (x ∷ ys)
in_tail f first = first
in_tail f (later k) = later (f k)

IsIn-insert_sorted : {a : ℕ} (x : ℕ) (xs : List ℕ) → IsIn a (x ∷ xs) → IsIn a (insert_sorted x xs)
unfolding insert_sorted
IsIn-insert_sorted x [] m = m
IsIn-insert_sorted x (y ∷ ys) m = elim (Bool-cases (leb x y)) [
  | inl l ↦ rw l m
  | inr l ↦ rw l (swap (IsIn-insert_sorted x ys) m)
]

insert_sorted-IsIn : {a : ℕ} (x : ℕ) (xs : List ℕ) → IsIn a (insert_sorted x xs) → IsIn a (x ∷ xs)
unfolding insert_sorted
insert_sorted-IsIn x [] m = m
insert_sorted-IsIn {a} x (y ∷ ys) m = elim (Bool-cases (leb x y)) [
  | inl l ↦ rw l at m
  | inr l ↦ swap (λ k. k) (in_tail (insert_sorted-IsIn x ys) (rw l at m))
]

pub IsIn-sort : {a : ℕ} (xs : List ℕ) → IsIn a xs → IsIn a (sort xs)
unfolding sort
IsIn-sort [] m = m
IsIn-sort (x ∷ xs) first = IsIn-insert_sorted x (sort xs) first
IsIn-sort (x ∷ xs) (later m) = IsIn-insert_sorted x (sort xs) (later (IsIn-sort xs m))

pub IsIn-unique : {a : ℕ} (xs : List ℕ) → IsIn a xs → IsIn a (unique xs)
unfolding unique
IsIn-unique [] m = m
IsIn-unique (x ∷ []) m = m
IsIn-unique (x ∷ y ∷ ys) first = elim (Bool-cases (x == y)) [
  | inl e ↦ let z : x ≡ y = ground (arith, e) in rw (e, z) (IsIn-unique (y ∷ ys) first)
  | inr e ↦ rw e first
]
IsIn-unique (x ∷ y ∷ ys) (later m) = elim (Bool-cases (x == y)) [
  | inl e ↦ rw e (IsIn-unique (y ∷ ys) m)
  | inr e ↦ rw e (later (IsIn-unique (y ∷ ys) m))
]

pub sort-IsIn : {a : ℕ} (xs : List ℕ) → IsIn a (sort xs) → IsIn a xs
unfolding sort
sort-IsIn [] m = m
sort-IsIn (x ∷ xs) m = in_tail (sort-IsIn xs) (insert_sorted-IsIn x (sort xs) m)

pub unique-IsIn : {a : ℕ} (xs : List ℕ) → IsIn a (unique xs) → IsIn a xs
unfolding unique
unique-IsIn [] m = m
unique-IsIn (x ∷ []) m = m
unique-IsIn (x ∷ y ∷ ys) m = elim (Bool-cases (x == y)) [
  | inl e ↦ later (unique-IsIn (y ∷ ys) (rw e at m))
  | inr e ↦ in_tail (unique-IsIn (y ∷ ys)) (rw e at m)
]
