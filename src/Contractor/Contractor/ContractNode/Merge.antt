-- ===== src/Contractor/Contractor/ContractNode/Merge.antt =====
-- The merging of alike edges loses none of them.
use osrm_backend.Prelude.{
  ℕ, zero, suc, ◌+◌, ◌≤◌, ◌<◌, ◌≡◌, ◌⊎◌, inl, inr, refl, sym, ◌∙◌, Bool, true, false, ◌||◌, arith,
  ltb, ◌==◌, Returns, done, Returns-weaken, Bool-cases, Array, update,
}
use osrm_backend.DataStructures.DynamicGraph.{DynamicGraph}
use osrm_backend.Contractor.Contractor.{ContractorEdgeData, ContractorEdge}
use osrm_backend.Contractor.Contractor.ContractNode.{same_flag, alike, find_alike, merge_flags}
use osrm_backend.Contractor.Contractor.ContractNode.Shortcuts.{goes_forward, goes_backward, Sound}

-- Both edges differ in their flags alone.
pub record Alike (a b : ContractorEdge) : Type 0 where
  pub source : a.source ≡ b.source
  pub target : a.target ≡ b.target
  pub distance : a.stored.distance ≡ b.stored.distance
  pub shortcut : a.stored.shortcut ≡ b.stored.shortcut

same_flag_lem : (a b : Bool) → same_flag a b ≡ true → a ≡ b
same_flag_lem true b p = sym p
same_flag_lem false true p = p
same_flag_lem false false p = refl

alike-Alike : (a b : ContractorEdge) → alike a b ≡ true → Alike a b
unfolding alike
alike-Alike a b p = record {
  source = ground (arith, p);
  target = ground (arith, p);
  distance = ground (arith, p);
  shortcut = same_flag_lem a.stored.shortcut b.stored.shortcut (ground (arith, p));
}

pub find_alike_lem :
    (n other : ℕ) (edge : ContractorEdge) (edges : Array ContractorEdge)
    → other + n ≡ edges.size
    → Returns
        (λ o. (other ≤ o) × (o ≤ edges.size) × (o < edges.size → Alike (edges.at o) edge))
        (find_alike n other edge edges)
unfolding find_alike
find_alike_lem zero other edge edges p =
    done (omega arith, omega (arith, p), λ q. absurd (omega (arith, p, q)))
find_alike_lem (suc n) other edge edges p =
    let a : ltb other edges.size ≡ true = ground (arith, p) in
    elim (Bool-cases (alike (edges.at other) edge)) [
      | inl y ↦
          rw (a, y) (done (omega arith, omega (arith, p), λ q. alike-Alike (edges.at other) edge y))
      | inr y ↦
          rw (a, y)
            (Returns-weaken (find_alike_lem n (other + 1) edge edges (omega (arith, p)))
              (λ o (b, c, d). (omega (arith, b), c, d)))
    ]

-- The positions that hold an edge at the round `i`: those that are done, and those to come.
abbrev pub Live : ℕ → ℕ → ℕ → Array ContractorEdge → ℕ → Type 0
Live start size i edges k = ((start ≤ k) × (k < size)) ⊎ ((i ≤ k) × (k < edges.size))

abbrev pub LiveNoted :
    (ContractorEdge → Bool) → ℕ → ℕ → ℕ → Array ContractorEdge → ℕ → ℕ → ℕ → Type 0
LiveNoted flag start size i edges u v d =
    (k : ℕ) × Live start size i edges k
    × ((edges.at k).source ≡ u)
    × ((edges.at k).target ≡ v)
    × ((edges.at k).stored.distance ≡ d)
    × ((edges.at k).stored.shortcut ≡ true)
    × (flag (edges.at k) ≡ true)

or_left : (a b : Bool) → a ≡ true → (a || b) ≡ true
or_left a b p = rw p refl

or_right : (a b : Bool) → b ≡ true → (a || b) ≡ true
or_right true b p = refl
or_right false b p = p

or_cases : (a b : Bool) → (a || b) ≡ true → (a ≡ true) ⊎ (b ≡ true)
or_cases true b p = inl refl
or_cases false b p = inr p

module _ (g : DynamicGraph ContractorEdgeData) (node : ℕ) where
  pub merge_flags-Sound :
      (a b : ContractorEdge)
      → Alike a b
      → Sound g node a
      → Sound g node b
      → Sound g node (merge_flags a b)
  unfolding merge_flags
  merge_flags-Sound a b l s t = record {
    middle = s.middle;
    shortcut = s.shortcut;
    way = elim s.way [ inl f ↦ inl (rw f refl) | inr f ↦ inr (rw f refl) ];
    forth = λ f. elim (or_cases a.stored.forward b.stored.forward f) [
      | inl x ↦ s.forth x
      | inr x ↦ rw (l.source, l.target, l.distance) (t.forth x)
    ];
    back = λ f. elim (or_cases a.stored.backward b.stored.backward f) [
      | inl x ↦ s.back x
      | inr x ↦ rw (l.source, l.target, l.distance) (t.back x)
    ];
  }

pub merge_flags-forward :
    (a b : ContractorEdge) → goes_forward (merge_flags a b) ≡ (goes_forward a || goes_forward b)
unfolding merge_flags
merge_flags-forward a b = refl

pub merge_flags-backward :
    (a b : ContractorEdge) → goes_backward (merge_flags a b) ≡ (goes_backward a || goes_backward b)
unfolding merge_flags
merge_flags-backward a b = refl

-- An edge is merged into the later one at `o`.
pub merged-LiveNoted :
    (flag : ContractorEdge → Bool) (start size i o : ℕ) (edges : Array ContractorEdge) (u v d : ℕ)
    → ((a b : ContractorEdge) → flag (merge_flags a b) ≡ (flag a || flag b))
    → size ≤ i
    → i < o
    → o < edges.size
    → Alike (edges.at o) (edges.at i)
    → LiveNoted flag start size i edges u v d
    → LiveNoted flag start size
        (i + 1)
        (record edges { at = update edges.at o (merge_flags (edges.at o) (edges.at i)) })
        u
        v
        d
unfolding merge_flags
merged-LiveNoted flag start size i o edges u v d both p q r l (k, live, s, t, w, c, f) =
    let a = edges.at o in
    let b = edges.at i in
    elim (Bool-cases (k == i)) [
      | inl y ↦
          let z : k ≡ i = ground (arith, y) in
          let on : (o == o) ≡ true = ground arith in
          (
            o,
            inr (omega (arith, q), r),
            rw on (l.source ∙ rw (← z) s),
            rw on (l.target ∙ rw (← z) t),
            rw on (l.distance ∙ rw (← z) w),
            rw on (l.shortcut ∙ rw (← z) c),
            rw on (both a b ∙ or_right (flag a) (flag b) (rw (← z) f)),
          )
      | inr y ↦
          let live' : Live start size (i + 1) edges k = elim live [
            | inl x ↦ inl x
            | inr x ↦ inr (ground (arith, x, y), x.1)
          ] in
          elim (Bool-cases (k == o)) [
            | inl x ↦
                let z : k ≡ o = ground (arith, x) in
                (
                  k,
                  live',
                  rw x (rw (← z) s),
                  rw x (rw (← z) t),
                  rw x (rw (← z) w),
                  rw x (rw (← z) c),
                  rw x (both a b ∙ or_left (flag a) (flag b) (rw (← z) f)),
                )
            | inr x ↦ (k, live', rw x s, rw x t, rw x w, rw x c, rw x f)
          ]
    ]

-- An edge that is alike no later one moves to the end of those that are done.
pub moved-LiveNoted :
    (flag : ContractorEdge → Bool) (start size i : ℕ) (edges : Array ContractorEdge) (u v d : ℕ)
    → start ≤ size
    → size ≤ i
    → LiveNoted flag start size i edges u v d
    → LiveNoted flag start
        (size + 1)
        (i + 1)
        (record edges { at = update edges.at size (edges.at i) })
        u
        v
        d
moved-LiveNoted flag start size i edges u v d o p (k, live, s, t, w, c, f) =
    elim (Bool-cases (k == i)) [
      | inl y ↦
          let z : k ≡ i = ground (arith, y) in
          let on : (size == size) ≡ true = ground arith in
          (
            size,
            inl (o, omega arith),
            rw on (rw (← z) s),
            rw on (rw (← z) t),
            rw on (rw (← z) w),
            rw on (rw (← z) c),
            rw on (rw (← z) f),
          )
      | inr y ↦
          let off : (k == size) ≡ false = elim live [
            | inl x ↦ ground (arith, x)
            | inr x ↦ ground (arith, x, y, p)
          ] in
          (
            k,
            elim live [
              | inl x ↦ inl (x.0, omega (arith, x.1))
              | inr x ↦ inr (ground (arith, x, y), x.1)
            ],
            rw off s,
            rw off t,
            rw off w,
            rw off c,
            rw off f,
          )
    ]
