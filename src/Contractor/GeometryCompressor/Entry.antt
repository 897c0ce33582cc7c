-- ===== src/Contractor/GeometryCompressor/Entry.antt =====
-- The first part of CompressEdge: the surviving edge has an entry afterwards.
use osrm_backend.Prelude.{
  ℕ, ◌≤◌, ◌<◌, ◌≡◌, ◌≢◌, refl, ◌∙◌, ap, Option, none, some, List, [], ◌∷◌, arith, length,
  Option-cases, List-cases, inl, inr, ◌>>=◌, Returns, done, Returns-weaken,
}
use mathlib.Core.Path.{subst}
use osrm_backend.Contractor.GeometryCompressor.{
  CompressedNode, GeometryCompressor, is_some, with_via, has_entry_for_id, use_free, with_room,
  ensure_entry, increase_free_list,
}
use osrm_backend.Contractor.GeometryCompressor.Buckets.{
  Distinct, Linked, IsValid, increase-Linked, increase-Kept,
}

-- The bucket of an edge, if it has one.
abbrev pub bucket_of : ℕ → GeometryCompressor → Option (List CompressedNode)
bucket_of e g = g.edge_id_to_list_index_map e >>= λ i. some (g.compressed_geometries.at i)

abbrev pub or_else : List CompressedNode → Option (List CompressedNode) → List CompressedNode
or_else d none = d
or_else d (some xs) = xs

-- The edge `e` has an entry, which is empty if it is new; nothing else has changed.
pub record Ensured (e : ℕ) (g g' : GeometryCompressor) : Type 0 where
  pub linked : Linked 0 g'
  pub index : ℕ
  pub entry : g'.edge_id_to_list_index_map e ≡ some index
  pub list_eq :
      (via : CompressedNode)
      → with_via via (g'.compressed_geometries.at index) ≡ or_else (via ∷ []) (bucket_of e g)
  pub others : (d : ℕ) → d ≢ e → g'.edge_id_to_list_index_map d ≡ g.edge_id_to_list_index_map d
  pub same :
      (i : ℕ)
      → i < g.compressed_geometries.size
      → g'.compressed_geometries.at i ≡ g.compressed_geometries.at i

take_free :
    (e i : ℕ) (free : List ℕ) (g : GeometryCompressor)
    → Linked 0 g
    → g.edge_id_to_list_index_map e ≡ none
    → g.free_list ≡ i ∷ free
    → Returns (Ensured e g) (use_free e g.free_list g)
unfolding use_free
take_free e i free g v n z =
    let apart : Distinct (i ∷ free) = subst Distinct z v.distinct in
    rw z (
      done (record {
        linked = record {
          full = v.full;
          in_range = λ d j h. ground (arith, v.free_lt i, v.in_range d j, z);
          inj = λ d d' j h k. ground (arith, v.inj d d' j, v.unused d i, v.unused d' i, z);
          free_lt = λ j h. ground (arith, v.free_lt j, z);
          unused = λ d j h. ground (arith, v.unused d j, z, apart.0);
          distinct = apart.1;
          free_empty = λ j h. ground (arith, v.free_empty j, z);
          blank = v.blank;
        };
        index = i;
        entry = ground arith;
        list_eq = λ via. ground (arith, v.free_empty i, z, n);
        others = λ d h. ground arith;
        same = λ i h. refl;
      }))

-- Buckets that are made first are not seen.
through_increase :
    (e : ℕ) (g g' : GeometryCompressor)
    → g.edge_id_to_list_index_map e ≡ none
    → Ensured e (increase_free_list g) g'
    → Ensured e g g'
through_increase e g g' n s =
    let (same_map, same_at, more, grows) = increase-Kept g in
    record {
      linked = s.linked;
      index = s.index;
      entry = s.entry;
      list_eq = λ via. s.list_eq via ∙ rw (n, ap (λ f. f e) same_map ∙ n) refl;
      others = λ d h. s.others d h ∙ ap (λ f. f d) same_map;
      same = λ i h. s.same i (omega (arith, h, grows)) ∙ same_at i h;
    }

with_via-long :
    (via : CompressedNode) (xs : List CompressedNode) → 2 ≤ length xs → with_via via xs ≡ xs
with_via-long via [] h = absurd (omega arith)
with_via-long via (x ∷ xs) h = refl

new_entry :
    (e : ℕ) (g : GeometryCompressor)
    → Linked 0 g
    → g.edge_id_to_list_index_map e ≡ none
    → Returns
        (Ensured e g)
        (use_free e (with_room g.free_list g).free_list (with_room g.free_list g))
unfolding with_room
new_entry e g v n = elim (List-cases g.free_list) [
  | inr (i, free, z) ↦
      let eq : with_room g.free_list g ≡ g = ap (λ l. with_room l g) z in
      rw eq (take_free e i free g v n z)
  | inl z ↦
      let eq : with_room g.free_list g ≡ increase_free_list g = ap (λ l. with_room l g) z in
      let (same_map, same_at, more, grows) = increase-Kept g in
      rw eq (elim (List-cases (increase_free_list g).free_list) [
        | inl y ↦ absurd (more y)
        | inr (i, free, y) ↦
            Returns-weaken
              (take_free e i free (increase_free_list g) (increase-Linked g v)
                (ap (λ f. f e) same_map ∙ n) y)
              (λ g' s. through_increase e g g' n s)
      ])
]

-- The entry is there afterwards, whether it has to be made, from the free list or from new buckets.
pub ensure_entry_lem :
    (e : ℕ) (g : GeometryCompressor) → IsValid g → Returns (Ensured e g) (ensure_entry e g)
unfolding ensure_entry has_entry_for_id
ensure_entry_lem e g v = elim (Option-cases (g.edge_id_to_list_index_map e)) [
  | inr (i, z) ↦ rw (ap is_some z) (
      done (record {
        linked = v.linked;
        index = i;
        entry = z;
        list_eq = λ via. rw z (with_via-long via (g.compressed_geometries.at i) (v.long e i z));
        others = λ d h. refl;
        same = λ j h. refl;
      }))
  | inl z ↦ rw (ap is_some z) (new_entry e g v.linked z)
]
