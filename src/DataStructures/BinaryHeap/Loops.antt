-- ===== src/DataStructures/BinaryHeap/Loops.antt =====
-- Upheap and Downheap.
use osrm_backend.Prelude.{
  ℕ, zero, suc, ◌+◌, ◌*◌, ◌/◌, ◌≤◌, ◌<◌, ◌≡◌, ◌≢◌, refl, ◌⊎◌, inl, inr, some, arith, ltb,
  if◌then◌else◌, load, ◌&&◌, Returns, done, Returns-weaken, Returns->>=, Bool-cases, ◌∙◌,
}
use osrm_backend.DataStructures.BinaryHeap.{
  BinaryHeap, settle, upheap_loop, upheap, downheap_loop, downheap, smaller_child, shl1,
}
use osrm_backend.DataStructures.BinaryHeap.Invariant.{
  wt, ix, ky, Linked, Ordered, Kept, Kept-refl, Kept-trans, moved, set_key_lem, settle_lem,
  moved-Kept, moved-Linked,
}
use osrm_backend.DataStructures.BinaryHeap.Sift.{
  Closed, Below, Above, put-Closed, parent_pos, up-Ordered, up-Below, down-Ordered, down-Above,
}

module _ {D : Type 0} where
  -- Where a loop stops: a hole with room for the weight `w`.
  pub record Found (r x w : ℕ) (h : BinaryHeap D) (p : ℕ × BinaryHeap D) : Type 0 where
    pub linked : Linked p.1 p.0 r x
    pub ordered : Ordered p.1 p.0
    pub below : Below p.1 p.0 w
    pub above : Above p.1 p.0 w
    pub kept : Kept r h p.1

  Found-after :
      {r x w : ℕ} {h h' : BinaryHeap D} {p : ℕ × BinaryHeap D}
      → Kept r h h'
      → Found r x w h' p
      → Found r x w h p
  Found-after k s = record {
    linked = s.linked;
    ordered = s.ordered;
    below = s.below;
    above = s.above;
    kept = Kept-trans k s.kept;
  }

  up_stop :
      (w fuel key : ℕ) (h : BinaryHeap D)
      → key < h.heap.size
      → wt h (key / 2) ≤ w
      → upheap_loop (suc fuel) key w h ≡ some (key, h)
  unfolding upheap_loop
  up_stop w fuel key h p q = ground arith

  -- The child that a round of Downheap looks at.
  pub record Smallest (key : ℕ) (h : BinaryHeap D) (c : ℕ) : Type 0 where
    pub inside : c < h.heap.size
    pub child : c / 2 ≡ key
    pub least : (i : ℕ) → i < h.heap.size → i / 2 ≡ key → 2 ≤ i → wt h c ≤ wt h i

  abbrev chosen : ℕ → BinaryHeap D → ℕ
  chosen key h =
      if ltb (key * 2 + 1) h.heap.size
      then (if ltb (wt h (key * 2 + 1)) (wt h (key * 2)) then key * 2 + 1 else key * 2)
      else key * 2

  smaller_child_lem :
      (key : ℕ) (h : BinaryHeap D)
      → key * 2 < h.heap.size
      → smaller_child (key * 2) h ≡ some (chosen key h)
  unfolding smaller_child
  smaller_child_lem key h q = ground arith

  chosen_least :
      (key i : ℕ) (h : BinaryHeap D) → i < h.heap.size → i / 2 ≡ key → wt h (chosen key h) ≤ wt h i
  chosen_least key i h p e = elim both [ inl z ↦ rw z (ground arith) | inr z ↦ rw z (ground arith) ]
    where
      both : (i ≡ key * 2) ⊎ (i ≡ key * 2 + 1)
      both = omega arith

  chosen-Smallest :
      (key : ℕ) (h : BinaryHeap D) → key * 2 < h.heap.size → Smallest key h (chosen key h)
  chosen-Smallest key h q = record {
    inside = ground arith;
    child = ground arith;
    least = λ i a b c. chosen_least key i h a b;
  }

  module _ (r x w : ℕ) where
    up_round :
        (fuel key : ℕ) (h : BinaryHeap D)
        → Linked h key r x
        → Ordered h key
        → w < wt h (key / 2)
        → upheap_loop (suc fuel) key w h ≡ upheap_loop fuel (key / 2) w (moved h key (key / 2))
    unfolding upheap_loop
    up_round fuel key h l o q = ground (
      arith,
      parent_pos l o w q,
      l.inside,
      l.index_lt (key / 2),
      set_key_lem h (ix h (key / 2)) key,
    )

    upheap_loop_finds :
        (fuel key : ℕ) (h : BinaryHeap D)
        → key < fuel
        → Linked h key r x
        → Ordered h key
        → Below h key w
        → Returns (Found r x w h) (upheap_loop fuel key w h)
    upheap_loop_finds zero key h f l o b = absurd (omega arith)
    upheap_loop_finds (suc fuel) key h f l o b = elim (Bool-cases (ltb w (wt h (key / 2)))) [
      | inl e ↦
          let q : w < wt h (key / 2) = ground arith in
          let pos = parent_pos l o w q in
          let inside : key / 2 < h.heap.size = omega (arith, l.inside) in
          let ne : key / 2 ≢ key = omega (arith, l.positive) in
          let kept = moved-Kept l (key / 2) pos inside ne in
          rw (up_round fuel key h l o q) (
            Returns-weaken
              (upheap_loop_finds fuel (key / 2) (moved h key (key / 2)) (omega (arith, l.positive))
                (moved-Linked l (key / 2) pos inside ne) (up-Ordered l o w q) (up-Below l o w q b))
              (λ p s. Found-after kept s))
      | inr e ↦ rw (up_stop w fuel key h l.inside (ground arith)) (
          done (record {
            linked = l;
            ordered = o;
            below = b;
            above = λ p. ground arith;
            kept = Kept-refl r h;
          }))
    ]

    down_round :
        (fuel key : ℕ) (h : BinaryHeap D)
        → Linked h key r x
        → Ordered h key
        → key * 2 < h.heap.size
        → wt h (chosen key h) < w
        → downheap_loop (suc fuel) key w h
          ≡ downheap_loop fuel (chosen key h) w (moved h key (chosen key h))
    unfolding downheap_loop
    down_round fuel key h l o q e =
        let c = chosen-Smallest key h q in
        let shift : shl1 key ≡ key * 2 = omega (arith, o.bounded) in
        rw (shift, smaller_child_lem key h q)
          (ground (
            arith,
            c.inside,
            c.child,
            l.inside,
            l.positive,
            l.index_lt (chosen key h),
            set_key_lem h (ix h (chosen key h)) key,
          ))

    down_stop :
        (fuel key : ℕ) (h : BinaryHeap D)
        → Linked h key r x
        → Ordered h key
        → (key * 2 < h.heap.size → w ≤ wt h (chosen key h))
        → downheap_loop (suc fuel) key w h ≡ some (key, h)
    unfolding downheap_loop
    down_stop fuel key h l o q =
        let shift : shl1 key ≡ key * 2 = omega (arith, o.bounded, l.inside) in
        rw shift (ground (arith, smaller_child_lem key h, chosen-Smallest key h))

    downheap_loop_finds :
        (fuel key : ℕ) (h : BinaryHeap D)
        → h.heap.size < fuel + key
        → Linked h key r x
        → Ordered h key
        → Above h key w
        → Returns (Found r x w h) (downheap_loop fuel key w h)
    downheap_loop_finds zero key h f l o a = absurd (omega (arith, l.inside))
    downheap_loop_finds (suc fuel) key h f l o a =
        elim (Bool-cases (ltb (key * 2) h.heap.size && ltb (wt h (chosen key h)) w)) [
          | inl e ↦
              let q : (key * 2 < h.heap.size) × (wt h (chosen key h) < w) = ground arith in
              let c = chosen-Smallest key h q.0 in
              let ne : chosen key h ≢ key = omega (arith, c.child, l.positive) in
              let pos : 1 ≤ chosen key h = omega (arith, c.child, l.positive) in
              rw (down_round fuel key h l o q.0 q.1) (
                Returns-weaken
                  (downheap_loop_finds fuel (chosen key h) (moved h key (chosen key h))
                    (omega (arith, c.child, l.positive))
                    (moved-Linked l (chosen key h) pos c.inside ne)
                    (down-Ordered l o w (chosen key h) c.inside c.child c.least)
                    (down-Above l o w (chosen key h) c.inside c.child c.least q.1))
                  (λ p s. Found-after (moved-Kept l (chosen key h) pos c.inside ne) s))
          | inr e ↦ rw (down_stop fuel key h l o (λ q. ground arith)) (
              done (record {
                linked = l;
                ordered = o;
                below = λ i p q s. ground (arith, chosen_least key i h);
                above = a;
                kept = Kept-refl r h;
              }))
        ]

  -- What Upheap and Downheap leave, when `r` is the element that they place.
  pub record Placed (r x : ℕ) (h h' : BinaryHeap D) : Type 0 where
    pub closed : Closed h' x
    pub kept : Kept r h h'
    pub in_heap : ky h' r ≢ 0

  settles :
      {r x w : ℕ} {h : BinaryHeap D} (p : ℕ × BinaryHeap D)
      → r ≢ x
      → (h.inserted_nodes.at r).weight ≡ w
      → Found r x w h p
      → Returns (Placed r x h) (settle p.0 (record { index = r; weight = w }) p.1)
  settles {r} {x} {w} {h} p n e s =
      let e' = s.kept.weight_eq r ∙ e in
      let c = put-Closed s.linked s.ordered w n s.below s.above e' in
      let pos = s.linked.positive in
      rw (settle_lem p.0 (record { index = r; weight = w }) p.1 s.linked.inside s.linked.waiting) (
        done (record {
          closed = c;
          kept = Kept-trans s.kept (record {
            size_eq = refl;
            count_eq = refl;
            index_eq = refl;
            node_eq = λ j. ground arith;
            weight_eq = λ j. ground arith;
            stored_eq = λ j. ground arith;
            zero_eq = λ j m. ground arith;
          });
          in_heap = ground arith;
        }))

  module _ {key r x w : ℕ} {h : BinaryHeap D} (l : Linked h key r x) (o : Ordered h key) where
    pub upheap_places :
        h.heap.at key ≡ record { index = r; weight = w }
        → r ≢ x
        → (h.inserted_nodes.at r).weight ≡ w
        → Below h key w
        → Returns (Placed r x h) (upheap key h)
    unfolding upheap
    upheap_places e n v b =
        let inside : load h.heap key ≡ some (record { index = r; weight = w }) =
          ground (arith, l.inside) in
        rw inside (
          Returns->>= (upheap_loop_finds r x w (key + 1) key h (omega arith) l o b)
            (λ p s. settles p n v s))

    pub downheap_places :
        h.heap.at key ≡ record { index = r; weight = w }
        → r ≢ x
        → (h.inserted_nodes.at r).weight ≡ w
        → Above h key w
        → Returns (Placed r x h) (downheap key h)
    unfolding downheap
    downheap_places e n v a =
        let inside : load h.heap key ≡ some (record { index = r; weight = w }) =
          ground (arith, l.inside) in
        rw inside (
          Returns->>=
            (downheap_loop_finds r x w (h.heap.size + 1) key h (omega (arith, l.positive)) l o a)
            (λ p s. settles p n v s))
