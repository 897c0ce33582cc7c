-- ===== src/Contractor/GeometryCompressor/Compress.antt =====
-- CompressEdge, on the bucket of each edge.
use osrm_backend.Prelude.{
  ℕ, ◌≤◌, ◌≡◌, ◌≢◌, ◌∙◌, sym, ap, true, false, none, some, List, [], ◌∷◌, ◌++◌, ◌==◌, ltb, arith,
  length, Bool-cases, Option-cases, inl, inr, Returns, done, Returns->>=, update, length-append,
}
use osrm_backend.Prelude.Int.{ℤ, eq_ℤ, eq_of_parts}
use osrm_backend.Contractor.GeometryCompressor.{
  CompressedNode, GeometryCompressor, special_id, invalid_edge_weight, assign, with_via,
  has_entry_for_id, get_position_for_id, append_second, compress_edge,
}
use osrm_backend.Contractor.GeometryCompressor.Buckets.{has, IsValid}
use osrm_backend.Contractor.GeometryCompressor.Entry.{bucket_of, or_else, Ensured, ensure_entry_lem}

-- CompressEdge on the buckets: the surviving edge's bucket, or the via node if there is none, is
-- followed by the removed edge's bucket, or the target; the removed edge has no bucket left.
pub record Compressed (e₁ e₂ : ℕ) (via target : CompressedNode) (g g' : GeometryCompressor)
    : Type 0 where
  pub valid : IsValid g'
  pub surviving :
      bucket_of e₁ g'
      ≡ some (or_else (via ∷ []) (bucket_of e₁ g) ++ or_else (target ∷ []) (bucket_of e₂ g))
  pub removed : bucket_of e₂ g' ≡ none
  pub others : (e : ℕ) → e ≢ e₁ → e ≢ e₂ → bucket_of e g' ≡ bucket_of e g

with_via-nonempty : (via : CompressedNode) (xs : List CompressedNode) → 1 ≤ length (with_via via xs)
with_via-nonempty via [] = omega arith
with_via-nonempty via (x ∷ xs) = omega arith

module _ (e₁ e₂ : ℕ) (via target : CompressedNode) (g g₁ : GeometryCompressor) (v : IsValid g)
    (n : e₁ ≢ e₂) (s : Ensured e₁ g g₁) where
  abbrev list1 : List CompressedNode
  list1 = with_via via (g₁.compressed_geometries.at s.index)

  -- An entry of another edge is the old one, and its bucket is where it was.
  other_entry :
      (e k : ℕ)
      → e ≢ e₁
      → g₁.edge_id_to_list_index_map e ≡ some k
      → (g.edge_id_to_list_index_map e ≡ some k)
        × (k ≢ s.index)
        × (g₁.compressed_geometries.at k ≡ g.compressed_geometries.at k)
        × (2 ≤ length (g.compressed_geometries.at k))
  other_entry e k h z =
      let z' : g.edge_id_to_list_index_map e ≡ some k = sym (s.others e h) ∙ z in
      let lt = v.linked.in_range e k z' in
      (
        z',
        (λ y. h (s.linked.inj e e₁ k z (s.entry ∙ ap some (sym y)))),
        s.same k (omega (arith, lt, v.linked.full)),
        v.long e k z',
      )

  abbrev atomic : GeometryCompressor
  atomic = record g₁ {
    compressed_geometries = record (g₁.compressed_geometries) {
      at = update g₁.compressed_geometries.at s.index (list1 ++ (target ∷ []));
    };
  }

  atomic-Compressed : g.edge_id_to_list_index_map e₂ ≡ none → Compressed e₁ e₂ via target g atomic
  atomic-Compressed z = record {
    valid = record {
      linked = record {
        full = s.linked.full;
        in_range = s.linked.in_range;
        inj = s.linked.inj;
        free_lt = s.linked.free_lt;
        unused = s.linked.unused;
        distinct = s.linked.distinct;
        free_empty = λ k h. ground (arith, s.linked.free_empty k, s.linked.unused e₁ k, s.entry);
        blank = λ k p q. ground (arith, s.linked.blank k, s.linked.in_range e₁ s.index s.entry);
      };
      long = λ e k h. elim (Bool-cases (e == e₁)) [
        | inl y ↦ ground (
          arith,
          s.entry,
          length-append {0} list1 (target ∷ []),
          with_via-nonempty via (g₁.compressed_geometries.at s.index),
        )
        | inr y ↦ ground (arith, other_entry e k (ground arith) h)
      ];
    };
    surviving = ground (arith, s.entry, s.list_eq via, z);
    removed = ground (arith, s.others e₂, z, n);
    others = λ e p q. elim (Option-cases (g₁.edge_id_to_list_index_map e)) [
      | inl y ↦ ground (arith, s.others e p, y)
      | inr (k, y) ↦ ground (arith, other_entry e k p y, y)
    ];
  }

  abbrev joined : ℕ → GeometryCompressor
  joined j = record g₁ {
    compressed_geometries = record (g₁.compressed_geometries) {
      at =
          update
            (update g₁.compressed_geometries.at s.index (list1 ++ g₁.compressed_geometries.at j)) j
            [];
    };
    edge_id_to_list_index_map = assign g₁.edge_id_to_list_index_map e₂ none;
    free_list = j ∷ g₁.free_list;
  }

  joined-Compressed :
      (j : ℕ) → g.edge_id_to_list_index_map e₂ ≡ some j → Compressed e₁ e₂ via target g (joined j)
  joined-Compressed j z =
      let z' : g₁.edge_id_to_list_index_map e₂ ≡ some j = s.others e₂ (λ y. n (sym y)) ∙ z in
      let (old, off, at_j, long_j) = other_entry e₂ j (λ y. n (sym y)) z' in
      let fresh : has j g₁.free_list ≡ false = elim (Bool-cases (has j g₁.free_list)) [
        | inl y ↦ absurd (s.linked.unused e₂ j y z')
        | inr y ↦ y
      ] in
      record {
        valid = record {
          linked = record {
            full = s.linked.full;
            in_range = λ e k h. ground (arith, s.linked.in_range e k, h);
            inj = λ e d k h l. ground (arith, s.linked.inj e d k, h, l);
            free_lt = λ k h. ground (arith, s.linked.free_lt k, s.linked.in_range e₂ j z');
            unused = λ e k h. ground (arith, s.linked.unused e k, s.linked.inj e e₂ k, z');
            distinct = (fresh, s.linked.distinct);
            free_empty =
                λ k h. ground (arith, s.linked.free_empty k, s.linked.unused e₁ k, s.entry);
            blank = λ k p q. ground (arith, s.linked.blank k, s.linked.in_range e₁ s.index s.entry);
          };
          long = λ e k h. elim (Bool-cases (e == e₁)) [
            | inl y ↦ ground (
              arith,
              s.entry,
              off,
              length-append {0} list1 (g₁.compressed_geometries.at j),
              at_j,
              long_j,
            )
            | inr y ↦ ground (arith, other_entry e k (ground arith), s.linked.inj e e₂ k, z')
          ];
        };
        surviving = ground (arith, s.entry, s.list_eq via, z, off, at_j, n);
        removed = ground arith;
        others = λ e p q. elim (Option-cases (g₁.edge_id_to_list_index_map e)) [
          | inl y ↦ ground (arith, s.others e p, y)
          | inr (k, y) ↦ ground (arith, other_entry e k p y, y, s.linked.inj e e₂ k, z')
        ];
      }

  append_second_lem :
      Returns (Compressed e₁ e₂ via target g) (append_second s.index e₂ target list1 g₁)
  unfolding append_second has_entry_for_id get_position_for_id
  append_second_lem =
      let in1 = s.linked.in_range e₁ s.index s.entry in
      elim (Option-cases (g.edge_id_to_list_index_map e₂)) [
        | inl z ↦
            let z' = s.others e₂ (λ y. n (sym y)) ∙ z in
            let eq : append_second s.index e₂ target list1 g₁ ≡ some atomic =
              ground (arith, z', in1, s.linked.full) in
            rw eq (done (atomic-Compressed z))
        | inr (j, z) ↦
            let z' = s.others e₂ (λ y. n (sym y)) ∙ z in
            let in2 = s.linked.in_range e₂ j z' in
            let eq : append_second s.index e₂ target list1 g₁ ≡ some (joined j) =
              ground (arith, z', in1, in2, s.linked.full) in
            rw eq (done (joined-Compressed j z))
      ]

-- CompressEdge of two different edges, of a valid compressor, with ids and weights other than the
-- special ones, returns and keeps the compressor valid. The first edge's bucket, or the via node if it
-- has none, is followed by the second edge's bucket, or the target if it has none; the second edge is
-- left without a bucket, and no other edge's bucket changes.
pub compress_edge_correct :
    (e₁ e₂ via target : ℕ) (weight1 weight2 : ℤ) (g : GeometryCompressor)
    → IsValid g
    → e₁ ≢ e₂
    → ((e₁ ≢ special_id) × (e₂ ≢ special_id) × (via ≢ special_id) × (target ≢ special_id))
    → (weight1 ≢ invalid_edge_weight) × (weight2 ≢ invalid_edge_weight)
    → Returns
        (Compressed e₁ e₂
          (record { node = via; weight = weight1 })
          (record { node = target; weight = weight2 })
          g)
        (compress_edge e₁ e₂ via target weight1 weight2 g)
unfolding compress_edge get_position_for_id
compress_edge_correct e₁ e₂ via target weight1 weight2 g v n real (a, b) =
    let c : eq_ℤ weight1 invalid_edge_weight ≡ false =
      ground (arith, a, eq_of_parts weight1 invalid_edge_weight) in
    let d : eq_ℤ weight2 invalid_edge_weight ≡ false =
      ground (arith, b, eq_of_parts weight2 invalid_edge_weight) in
    let p : (e₁ == special_id) ≡ false = ground (arith, real) in
    let q : (e₂ == special_id) ≡ false = ground (arith, real) in
    let r : (via == special_id) ≡ false = ground (arith, real) in
    let t : (target == special_id) ≡ false = ground (arith, real) in
    rw (p, q, r, t, c, d)
      (Returns->>= (ensure_entry_lem e₁ g v) (λ g₁ s.
        let i : ltb s.index g₁.compressed_geometries.size ≡ true =
          ground (arith, s.linked.in_range e₁ s.index s.entry, s.linked.full) in
        rw (s.entry, i, i)
          (append_second_lem e₁ e₂ (record { node = via; weight = weight1 })
            (record { node = target; weight = weight2 }) g g₁ v n s)))
