-- ===== src/Contractor/GeometryCompressor/Buckets.antt =====
-- What the operations on the buckets rely on and keep, and the constructor.
use osrm_backend.Prelude.{
  ℕ, zero, suc, ◌+◌, ◌≤◌, ◌<◌, ◌≡◌, ◌≢◌, refl, Bool, true, false, some, List, [], ◌∷◌, ◌==◌, ltb,
  if◌then◌else◌, arith, length, Bool-cases, inl, inr, ap, sym, ◌∙◌,
}
use osrm_backend.Contractor.GeometryCompressor.{
  GeometryCompressor, add_free, is_some, increase_free_list, new_compressor,
}

-- Whether the number stands in the list.
abbrev pub has : ℕ → List ℕ → Bool
has i [] = false
has i (x ∷ xs) = if i == x then true else has i xs

abbrev pub Distinct : List ℕ → Type 0
Distinct [] = Unit {0}
Distinct (x ∷ xs) = (has x xs ≡ false) × Distinct xs

-- `n` buckets at the end are not given to the free list yet.
pub record Linked (n : ℕ) (g : GeometryCompressor) : Type 0 where
  pub full : g.free_list_maximum + n ≡ g.compressed_geometries.size
  pub in_range : (e i : ℕ) → g.edge_id_to_list_index_map e ≡ some i → i < g.free_list_maximum
  pub inj :
      (e e' i : ℕ)
      → g.edge_id_to_list_index_map e ≡ some i
      → g.edge_id_to_list_index_map e' ≡ some i
      → e ≡ e'
  pub free_lt : (i : ℕ) → has i g.free_list ≡ true → i < g.free_list_maximum
  pub unused : (e i : ℕ) → has i g.free_list ≡ true → g.edge_id_to_list_index_map e ≢ some i
  pub distinct : Distinct g.free_list
  pub free_empty : (i : ℕ) → has i g.free_list ≡ true → g.compressed_geometries.at i ≡ []
  pub blank :
      (i : ℕ)
      → g.free_list_maximum ≤ i
      → i < g.compressed_geometries.size
      → g.compressed_geometries.at i ≡ []

-- Each edge's bucket has at least the via node and a target.
pub record IsValid (g : GeometryCompressor) : Type 0 where
  pub linked : Linked 0 g
  pub long :
      (e i : ℕ) → g.edge_id_to_list_index_map e ≡ some i → 2 ≤ length (g.compressed_geometries.at i)

pub add_free-Linked : (n : ℕ) (g : GeometryCompressor) → Linked n g → Linked 0 (add_free n g)
unfolding add_free
add_free-Linked zero g v = v
add_free-Linked (suc n) g v =
    let fresh : has g.free_list_maximum g.free_list ≡ false =
      elim (Bool-cases (has g.free_list_maximum g.free_list)) [
        | inl e ↦ absurd (omega (arith, v.free_lt g.free_list_maximum e))
        | inr e ↦ e
      ] in
    add_free-Linked n _ (record {
      full = omega (arith, v.full);
      in_range = λ e i h. omega (arith, v.in_range e i h);
      inj = v.inj;
      free_lt = λ i h. ground (arith, v.free_lt i);
      unused = λ e i h. ground (arith, v.unused e i, v.in_range e i);
      distinct = (fresh, v.distinct);
      free_empty = λ i h. ground (arith, v.free_empty i, v.blank i, v.full);
      blank = λ i p q. v.blank i (omega arith) q;
    })

pub add_free-Kept :
    (n : ℕ) (g : GeometryCompressor)
    → ((add_free n g).edge_id_to_list_index_map ≡ g.edge_id_to_list_index_map)
      × ((add_free n g).compressed_geometries ≡ g.compressed_geometries)
unfolding add_free
add_free-Kept zero g = (refl, refl)
add_free-Kept (suc n) g = add_free-Kept n _

pub add_free-nonempty :
    (n : ℕ) (g : GeometryCompressor) → g.free_list ≢ [] → (add_free n g).free_list ≢ []
unfolding add_free
add_free-nonempty zero g h = h
add_free-nonempty (suc n) g h = add_free-nonempty n _ (λ e. cc)

add_free-fills : (n : ℕ) (g : GeometryCompressor) → (add_free (suc n) g).free_list ≢ []
unfolding add_free
add_free-fills n g = add_free-nonempty n _ (λ e. cc)

pub increase-Linked : (g : GeometryCompressor) → Linked 0 g → Linked 0 (increase_free_list g)
unfolding increase_free_list
increase-Linked g v = add_free-Linked 100 _ (record {
  full = omega (arith, v.full);
  in_range = v.in_range;
  inj = v.inj;
  free_lt = v.free_lt;
  unused = v.unused;
  distinct = v.distinct;
  free_empty = λ i h. ground (arith, v.free_empty i h);
  blank = λ i p q. ground (arith, v.full);
})

pub increase-Kept :
    (g : GeometryCompressor)
    → ((increase_free_list g).edge_id_to_list_index_map ≡ g.edge_id_to_list_index_map)
      × ((i : ℕ)
          → i < g.compressed_geometries.size
          → (increase_free_list g).compressed_geometries.at i ≡ g.compressed_geometries.at i)
      × ((increase_free_list g).free_list ≢ [])
      × ((increase_free_list g).compressed_geometries.size ≡ g.compressed_geometries.size + 100)
unfolding increase_free_list
increase-Kept g =
    let at =
      λ (i : ℕ). if ltb i g.compressed_geometries.size then g.compressed_geometries.at i else [] in
    let grown : GeometryCompressor = record g {
      compressed_geometries = record { size = g.compressed_geometries.size + 100; at = at };
    } in
    let kept = add_free-Kept 100 grown in
    (
      kept.0,
      (λ i p. ap (λ a. a.at i) kept.1 ∙ ground arith),
      add_free-fills 99 grown,
      ap (λ a. a.size) kept.1,
    )

pub new_compressor-IsValid : IsValid new_compressor
unfolding new_compressor
new_compressor-IsValid = record {
  linked = increase-Linked _ (record {
    full = refl;
    in_range = λ e i h. cc;
    inj = λ e e' i h k. cc;
    free_lt = λ i h. cc;
    unused = λ e i h. cc;
    distinct = tt;
    free_empty = λ i h. refl;
    blank = λ i p q. refl;
  });
  long = λ e i h.
      let bad : true ≡ false = ap is_some (sym h ∙ ap (λ f. f e) (increase-Kept _).0) in cc;
}
