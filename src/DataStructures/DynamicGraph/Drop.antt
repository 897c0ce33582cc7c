-- ===== src/DataStructures/DynamicGraph/Drop.antt =====
-- The loops of DeleteEdgesTo.
use osrm_backend.Prelude.{
  ℕ, zero, suc, ◌+◌, ◌-◌, ◌≤◌, ◌<◌, ◌≡◌, ◌≢◌, refl, ◌∙◌, true, false, List, [], ◌∷◌, ◌++◌, ◌==◌,
  ltb, update, arith, length, length-append, Array, Returns, done, Returns-weaken, Returns->>=,
  Bool-cases, inl, inr,
}
use mathlib.Core.List.{Perm, append_assoc}
use mathlib.Core.List.Perm as Perm
use osrm_backend.DataStructures.DynamicGraph.{Edge, make_dummy, copy_edge, drop_run, drop_to}
use osrm_backend.DataStructures.DynamicGraph.Slices.{slice, dummy}
use osrm_backend.DataStructures.DynamicGraph.Delete.{drop-Perm}

module _ {D : Type 0} (target : ℕ) where
  -- The edges that have been removed: all lead to the target.
  pub data LeadAway : List (Edge D) → Type 0 where
    nothing : LeadAway []
    one_more :
        {e : Edge D} {es : List (Edge D)} → e.target ≡ target → LeadAway es → LeadAway (e ∷ es)

  -- The edges from `first` up to `end` in the one array are those up to `end'` in the other, and the removed
  -- ones; before `i` and from `end` on nothing has changed.
  pub record Dropped (first i end : ℕ) (edges : Array (Edge D)) (r : ℕ × Array (Edge D))
      : Type 0 where
    pub size_eq : r.1.size ≡ edges.size
    pub le : r.0 ≤ end
    pub first_le : first ≤ r.0
    pub gone : List (Edge D)
    pub lead : LeadAway gone
    pub count : length gone + r.0 ≡ end
    pub same : Perm (gone ++ slice r.1.at first (r.0 - first)) (slice edges.at first (end - first))
    pub before : (j : ℕ) → j < i → r.1.at j ≡ edges.at j
    pub behind : (j : ℕ) → end ≤ j → r.1.at j ≡ edges.at j
    pub from : (j : ℕ) → i ≤ j → j < r.0 → (k : ℕ) × (i ≤ k) × (k < end) × (r.1.at j ≡ edges.at k)

  Dropped-refl :
      (first i end : ℕ) (edges : Array (Edge D))
      → first ≤ end
      → Dropped first i end edges (end, edges)
  Dropped-refl first i end edges p = record {
    size_eq = refl;
    le = omega arith;
    first_le = p;
    gone = [];
    lead = nothing;
    count = omega arith;
    same = Perm.rfl;
    before = λ j q. refl;
    behind = λ j q. refl;
    from = λ j q t. (j, q, t, refl);
  }

  -- One edge leaves, and then those of a later run.
  Dropped-more :
      (first i end : ℕ) (edges : Array (Edge D)) (r : ℕ × Array (Edge D))
      → first ≤ i
      → i < end
      → (edges.at i).target ≡ target
      → Dropped first i
          (end - 1)
          (record edges {
            at =
                update
                  (update edges.at i (edges.at (end - 1)))
                  (end - 1)
                  (dummy (update edges.at i (edges.at (end - 1)) (end - 1)));
          })
          r
      → Dropped first i end edges r
  Dropped-more first i end edges r p q t d =
      let n = end - 1 - first in
      let place : i ≡ first + (i - first) = omega (arith, p) in
      let g : ℕ → Edge D =
        update (update edges.at i (edges.at (end - 1))) (end - 1)
          (dummy (update edges.at i (edges.at (end - 1)) (end - 1))) in
      let one =
        drop-Perm edges.at g first n (i - first) (omega (arith, p, q))
          (λ j a b. ground (arith, p, q, a, b)) (λ a. ground (arith, p, q, a)) in
      let whole : end - first ≡ suc n = omega (arith, p, q) in
      record {
        size_eq = d.size_eq;
        le = omega (arith, d.le);
        first_le = d.first_le;
        gone = edges.at i ∷ d.gone;
        lead = one_more t d.lead;
        count = omega (arith, d.count, q);
        same = rw whole (Perm.trans (Perm.cons (edges.at i) d.same) (rw (← place) at one));
        before = λ j a. d.before j a ∙ ground (arith, a, q);
        behind = λ j a. d.behind j (omega (arith, a)) ∙ ground (arith, a, q);
        from = λ j a b.
            let (k, e, f, g) = d.from j a b in
            elim (Bool-cases (k == i)) [
              | inl y ↦ (end - 1, omega (arith, q), omega (arith, q), g ∙ ground (arith, y, f))
              | inr y ↦ (k, e, omega (arith, f), g ∙ ground (arith, y, f))
            ];
      }

  -- The inner loop leaves an edge at `i` that does not lead to the target, or nothing there.
  drop_run_lem :
      (first fuel i end : ℕ) (edges : Array (Edge D))
      → first ≤ i
      → i < end
      → end ≤ i + fuel
      → end ≤ edges.size
      → (edges.at i).target ≡ target
      → Returns
          (λ r.
            Dropped first i end edges r
            × (i ≤ r.0)
            × (r.0 < end)
            × (i < r.0 → (r.1.at i).target ≢ target))
          (drop_run fuel i end target edges)
  unfolding drop_run copy_edge make_dummy
  drop_run_lem first zero i end edges p q r s t = absurd (omega (arith, q, r))
  drop_run_lem first (suc fuel) i end edges p q r s t =
      let a : ltb (end - 1) edges.size ≡ true = ground (arith, q, s) in
      let b : ltb i edges.size ≡ true = ground (arith, q, s) in
      let cleared : Array (Edge D) = record edges {
        at =
            update (update edges.at i (edges.at (end - 1))) (end - 1)
              (dummy (update edges.at i (edges.at (end - 1)) (end - 1)));
      } in
      elim (Bool-cases (ltb i (end - 1))) [
        | inr y ↦
            rw (a, b, a, y)
              (done (
                Dropped-more first i end edges _ p q t
                    (Dropped-refl first i (end - 1) _ (omega (arith, p, q))),
                omega (arith, q),
                omega (arith, q),
                λ z. ground (arith, y, z),
              ))
        | inl y ↦
            let more : i < end - 1 = ground (arith, y) in
            elim (Bool-cases ((cleared.at i).target == target)) [
              | inl z ↦
                  rw (a, b, a, y, b, z)
                    (Returns-weaken
                      (drop_run_lem first fuel i (end - 1) cleared p more (omega (arith, r))
                        (omega (arith, s)) (ground (arith, z)))
                      (λ x (d, e, f, g).
                        (Dropped-more first i end edges x p q t d, e, omega (arith, f), g)))
              | inr z ↦
                  rw (a, b, a, y, b, z)
                    (done (
                      Dropped-more first i end edges _ p q t
                          (Dropped-refl first i (end - 1) _ (omega (arith, p, q))),
                      omega (arith, q),
                      omega (arith, q),
                      λ w. ground (arith, z),
                    ))
            ]
      ]

  pub LeadAway-append : {xs ys : List (Edge D)} → LeadAway xs → LeadAway ys → LeadAway (xs ++ ys)
  LeadAway-append nothing l = l
  LeadAway-append (one_more t h) l = one_more t (LeadAway-append h l)

  Dropped-trans :
      (first i end : ℕ) (edges : Array (Edge D)) (r s : ℕ × Array (Edge D))
      → Dropped first i end edges r
      → Dropped first (i + 1) r.0 r.1 s
      → Dropped first i end edges s
  Dropped-trans first i end edges r s d d' = record {
    size_eq = d'.size_eq ∙ d.size_eq;
    le = omega (arith, d.le, d'.le);
    first_le = d'.first_le;
    gone = d.gone ++ d'.gone;
    lead = LeadAway-append d.lead d'.lead;
    count = omega (arith, d.count, d'.count, length-append d.gone d'.gone);
    same =
        rw (append_assoc d.gone d'.gone (slice s.1.at first (s.0 - first)))
          (Perm.trans (Perm.append_left d.gone d'.same) d.same);
    before = λ j p. d'.before j (omega (arith, p)) ∙ d.before j p;
    behind = λ j p. d'.behind j (omega (arith, p, d.le)) ∙ d.behind j p;
    from = λ j p q. elim (Bool-cases (j == i)) [
      | inl y ↦
          let (k, a, b, c) = d.from j p (omega (arith, q, d'.le)) in
          (k, a, b, d'.before j (ground (arith, y)) ∙ c)
      | inr y ↦
          let (k, a, b, c) = d'.from j (ground (arith, y, p)) q in
          let (m, e, f, g) = d.from k (omega (arith, a)) b in (m, e, f, c ∙ g)
    ];
  }

  pub drop_to_lem :
      (first fuel i end : ℕ) (edges : Array (Edge D))
      → first ≤ i
      → first ≤ end
      → end ≤ i + fuel
      → end ≤ edges.size
      → Returns
          (λ r.
            Dropped first i end edges r × ((j : ℕ) → i ≤ j → j < r.0 → (r.1.at j).target ≢ target))
          (drop_to fuel i end target edges)
  unfolding drop_to
  drop_to_lem first zero i end edges p o r s =
      let a : ltb i end ≡ false = ground (arith, r) in
      rw a (done (Dropped-refl first i end edges o, λ j t u. absurd (omega (arith, t, u, r))))
  drop_to_lem first (suc fuel) i end edges p o r s = elim (Bool-cases (ltb i end)) [
    | inr y ↦ rw y (done (Dropped-refl first i end edges o, λ j t u. ground (arith, t, u, y)))
    | inl y ↦
        let inside : i < end = ground (arith, y) in
        let a : ltb i edges.size ≡ true = ground (arith, y, s) in
        elim (Bool-cases ((edges.at i).target == target)) [
          | inl z ↦
              rw (y, a, z)
                (Returns->>=
                  (drop_run_lem first (end - i) i end edges p inside (omega arith) s
                    (ground (arith, z)))
                  (λ x (d, b, c, e).
                    Returns-weaken
                      (drop_to_lem first fuel (i + 1) x.0 x.1 (omega (arith, p)) d.first_le
                        (omega (arith, r, c)) (omega (arith, s, c, d.size_eq)))
                      (λ w (f, g). (
                        Dropped-trans first i end edges x w d f,
                        λ j t u. elim (Bool-cases (j == i)) [
                          | inl v ↦
                              let q : j ≡ i = ground (arith, v) in
                              rw (q, f.before i (omega arith)) (e (omega (arith, u, q, f.le)))
                          | inr v ↦ g j (ground (arith, v, t)) u
                        ],
                      ))))
          | inr z ↦
              rw (y, a, z)
                (Returns-weaken
                  (drop_to_lem first fuel (i + 1) end edges (omega (arith, p)) o (omega (arith, r))
                    s)
                  (λ w (f, g). (
                    Dropped-trans first i end edges (end, edges) w
                        (Dropped-refl first i end edges o) f,
                    λ j t u. elim (Bool-cases (j == i)) [
                      | inl v ↦
                          let q : j ≡ i = ground (arith, v) in
                          rw (q, f.before i (omega arith)) (ground (arith, z))
                      | inr v ↦ g j (ground (arith, v, t)) u
                    ],
                  )))
        ]
  ]
