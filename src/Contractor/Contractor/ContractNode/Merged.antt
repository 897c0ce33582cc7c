-- ===== src/Contractor/Contractor/ContractNode/Merged.antt =====
-- The loop that merges alike edges.
use osrm_backend.Prelude.{
  ℕ, zero, suc, ◌+◌, ◌≤◌, ◌<◌, ◌≡◌, inl, inr, refl, ◌∙◌, true, arith, ltb, ◌==◌, Returns, done,
  Returns-weaken, Returns->>=, Bool-cases, Array,
}
use osrm_backend.DataStructures.DynamicGraph.{DynamicGraph}
use osrm_backend.Contractor.Contractor.{ContractorEdgeData, ContractorEdge}
use osrm_backend.Contractor.Contractor.ContractNode.{merge_edge, merge_edges}
use osrm_backend.Contractor.Contractor.ContractNode.Shortcuts.{
  Noted, goes_forward, goes_backward, Sound,
}
use osrm_backend.Contractor.Contractor.ContractNode.Merge.{
  find_alike_lem, Live, LiveNoted, merge_flags-Sound, merge_flags-forward, merge_flags-backward,
  merged-LiveNoted, moved-LiveNoted,
}

module _ (g : DynamicGraph ContractorEdgeData) (node start : ℕ) where
  record Kept (i size : ℕ) (edges : Array ContractorEdge) (r : Array ContractorEdge × ℕ)
      : Type 0 where
    size_eq : r.0.size ≡ edges.size
    start_le : start ≤ r.1
    behind : r.1 ≤ i + 1
    before : (k : ℕ) → k < start → r.0.at k ≡ edges.at k
    sound : (k : ℕ) → Live start r.1 (i + 1) r.0 k → Sound g node (r.0.at k)
    forth :
        (u v d : ℕ)
        → LiveNoted goes_forward start size i edges u v d
        → LiveNoted goes_forward start r.1 (i + 1) r.0 u v d
    back :
        (u v d : ℕ)
        → LiveNoted goes_backward start size i edges u v d
        → LiveNoted goes_backward start r.1 (i + 1) r.0 u v d

  merge_edge_lem :
      (n i size : ℕ) (edges : Array ContractorEdge)
      → i + suc n ≡ edges.size
      → start ≤ size
      → size ≤ i
      → ((k : ℕ) → Live start size i edges k → Sound g node (edges.at k))
      → Returns (Kept i size edges) (merge_edge n i size edges)
  unfolding merge_edge
  merge_edge_lem n i size edges p first behind sound =
      let a : ltb i edges.size ≡ true = ground (arith, p) in
      let whole : i + 1 + n ≡ edges.size = omega (arith, p) in
      rw a (
        Returns->>= (find_alike_lem n (i + 1) (edges.at i) edges whole) (λ o (later, le, like).
          elim (Bool-cases (ltb o (i + 1 + n))) [
            | inl y ↦
                let inside : o < edges.size = ground (arith, y, whole) in
                let b : ltb o edges.size ≡ true = ground (arith, inside) in
                let l = like inside in
                rw (y, b)
                  (done (record {
                    size_eq = refl;
                    start_le = first;
                    behind = omega (arith, behind);
                    before = λ k q. ground (arith, q, first, behind, later);
                    sound = λ k live. elim (Bool-cases (k == o)) [
                      | inl z ↦ rw z (
                          merge_flags-Sound g node (edges.at o) (edges.at i) l
                            (sound o (inr (omega (arith, later), inside)))
                            (sound i (inr (omega arith, omega (arith, p)))))
                      | inr z ↦ rw z (
                          sound k
                            (elim live [ inl x ↦ inl x | inr x ↦ inr (omega (arith, x.0), x.1) ]))
                    ];
                    forth = λ u v d h.
                        merged-LiveNoted goes_forward start size i o edges u v d merge_flags-forward
                          behind (omega (arith, later)) inside l h;
                    back = λ u v d h.
                        merged-LiveNoted goes_backward start size i o edges u v d
                          merge_flags-backward behind (omega (arith, later)) inside l h;
                  }))
            | inr y ↦
                let b : ltb size edges.size ≡ true = ground (arith, p, behind) in
                rw (y, b)
                  (done (record {
                    size_eq = refl;
                    start_le = omega (arith, first);
                    behind = omega (arith, behind);
                    before = λ k q. ground (arith, q, first);
                    sound = λ k live. elim (Bool-cases (k == size)) [
                      | inl z ↦ rw z (sound i (inr (omega arith, omega (arith, p))))
                      | inr z ↦ rw z (
                          sound k (elim live [
                            | inl x ↦ inl (x.0, ground (arith, x, z))
                            | inr x ↦ inr (omega (arith, x.0), x.1)
                          ]))
                    ];
                    forth = λ u v d h.
                        moved-LiveNoted goes_forward start size i edges u v d first behind h;
                    back = λ u v d h.
                        moved-LiveNoted goes_backward start size i edges u v d first behind h;
                  }))
          ]))

  -- The merged edges from `start` on are sound, and none is lost.
  pub record Merges (size i : ℕ) (edges r : Array ContractorEdge) : Type 0 where
    pub start_le : start ≤ r.size
    pub before : (k : ℕ) → k < start → r.at k ≡ edges.at k
    pub sound : (k : ℕ) → start ≤ k → k < r.size → Sound g node (r.at k)
    pub forth :
        (u v d : ℕ)
        → LiveNoted goes_forward start size i edges u v d
        → Noted goes_forward start r u v d
    pub back :
        (u v d : ℕ)
        → LiveNoted goes_backward start size i edges u v d
        → Noted goes_backward start r u v d

  pub merge_edges_lem :
      (n i size : ℕ) (edges : Array ContractorEdge)
      → i + n ≡ edges.size
      → start ≤ size
      → size ≤ i
      → ((k : ℕ) → Live start size i edges k → Sound g node (edges.at k))
      → Returns (Merges size i edges) (merge_edges n i size edges)
  unfolding merge_edges
  merge_edges_lem zero i size edges p first behind sound = done (record {
    start_le = first;
    before = λ k q. refl;
    sound = λ k a b. sound k (inl (a, b));
    forth = λ u v d (k, live, s, t, w, c, f). elim live [
      | inl (a, b) ↦ (k, a, b, s, t, w, c, f)
      | inr (a, b) ↦ absurd (omega (arith, a, b, p))
    ];
    back = λ u v d (k, live, s, t, w, c, f). elim live [
      | inl (a, b) ↦ (k, a, b, s, t, w, c, f)
      | inr (a, b) ↦ absurd (omega (arith, a, b, p))
    ];
  })
  merge_edges_lem (suc n) i size edges p first behind sound =
      Returns->>= (merge_edge_lem n i size edges p first behind sound) (λ r k.
        Returns-weaken
          (merge_edges_lem n (i + 1) r.1 r.0 (omega (arith, p, k.size_eq)) k.start_le k.behind
            k.sound)
          (λ s m. record {
            start_le = m.start_le;
            before = λ j q. m.before j q ∙ k.before j q;
            sound = m.sound;
            forth = λ u v d h. m.forth u v d (k.forth u v d h);
            back = λ u v d h. m.back u v d (k.back u v d h);
          }))
