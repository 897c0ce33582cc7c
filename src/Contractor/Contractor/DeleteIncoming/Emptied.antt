-- ===== src/Contractor/Contractor/DeleteIncoming/Emptied.antt =====
-- What is left of the edges when DeleteIncomingEdges returns.
use osrm_backend.Prelude.{
  ℕ, ◌+◌, ◌≤◌, ◌<◌, ◌≡◌, ◌≢◌, inl, inr, refl, sym, ◌∙◌, arith, List, [], ◌∷◌, ◌==◌, Returns, done,
  Returns-weaken, Returns->>=, Bool-cases,
}
use mathlib.Core.Path.{subst}
use osrm_backend.Prelude.Ranges.{one_more}
use osrm_backend.DataStructures.DynamicGraph.{DynamicGraph}
use osrm_backend.DataStructures.DynamicGraph.Slices.{Within}
use osrm_backend.DataStructures.DynamicGraph.Valid.{adjacent, IsValid}
use osrm_backend.DataStructures.DynamicGraph.DeleteTo.{DeletedTo, delete_edges_to_correct}
use osrm_backend.Contractor.Contractor.{ContractorEdgeData}
use osrm_backend.Contractor.Contractor.Edges.{for_adjacent_lem, Joined}
use osrm_backend.Contractor.Contractor.ContractNode.{ContractorThreadData}
use osrm_backend.Contractor.Contractor.Independence.{sort, unique}
use osrm_backend.Contractor.Contractor.Independence.Neighbours.{
  IsIn, first, later, IsIn-append, IsIn-append_right, IsIn-append_cases, IsIn-cases, IsIn-sort,
  IsIn-unique, sort-IsIn, unique-IsIn,
}
use osrm_backend.Contractor.Contractor.DeleteIncoming.{
  add_neighbour, delete_from, delete_incoming_edges,
}
use osrm_backend.Contractor.Contractor.DeleteIncoming.Shrinks.{
  Avoids, slice-Avoids, avoids_or_leads, Shrinks, Shrinks-same, Shrinks-trans,
}

module _ (node : ℕ) where
  -- After the edges of some nodes have been deleted.
  record Emptied (us : List ℕ) (g g' : DynamicGraph ContractorEdgeData) : Type 0 where
    valid : IsValid g'
    same_nodes : g'.node_list.size ≡ g.node_list.size
    shrinks : (v : ℕ) → v < g.node_list.size → Shrinks node v g g'
    stays :
        (v : ℕ) → v < g.node_list.size → Avoids node (adjacent v g) → Avoids node (adjacent v g')
    clear : (v : ℕ) → v < g.node_list.size → IsIn v us → Avoids node (adjacent v g')
    own : node < g.node_list.size → adjacent node g' ≡ adjacent node g

  -- One node's edges.
  DeletedTo-Emptied :
      (u : ℕ) (g : DynamicGraph ContractorEdgeData) (p : ℕ × DynamicGraph ContractorEdgeData)
      → u ≢ node
      → DeletedTo node u g p
      → Emptied (u ∷ []) g p.1
  unfolding Shrinks
  DeletedTo-Emptied u g p other d =
      let none : Avoids node (adjacent u p.1) =
        slice-Avoids node _ _ _ (λ j a b. d.left j (a, b)) in
      record {
        valid = d.valid;
        same_nodes = d.same_nodes;
        shrinks = λ v r. elim (Bool-cases (v == u)) [
          | inl t ↦
              let z : u ≡ v = ground (arith, t) in
              subst (λ x. Shrinks node x g p.1) z (d.gone, d.lead, d.split)
          | inr t ↦ Shrinks-same node v g p.1 (d.unchanged v r (λ e. ground (arith, t, e)))
        ];
        stays = λ v r a. elim (Bool-cases (v == u)) [
          | inl t ↦
              let z : u ≡ v = ground (arith, t) in subst (λ x. Avoids node (adjacent x p.1)) z none
          | inr t ↦ subst (Avoids node) (sym (d.unchanged v r (λ e. ground (arith, t, e)))) a
        ];
        clear = λ v r m. elim (IsIn-cases m) [
          | inl z ↦ subst (λ x. Avoids node (adjacent x p.1)) z none
          | inr k ↦ elim k [ ]
        ];
        own = λ r. d.unchanged node r (λ e. other (sym e));
      }

  delete_from_lem :
      (us : List ℕ) (g : DynamicGraph ContractorEdgeData)
      → IsValid g
      → ((u : ℕ) → IsIn u us → u < g.node_list.size)
      → ((u : ℕ) → IsIn u us → u ≢ node)
      → Returns (Emptied us g) (delete_from node us g)
  unfolding delete_from
  delete_from_lem [] g val exist apart = done (record {
    valid = val;
    same_nodes = refl;
    shrinks = λ v r. Shrinks-same node v g g refl;
    stays = λ v r a. a;
    clear = λ v r m. elim m [ ];
    own = λ r. refl;
  })
  delete_from_lem (u ∷ us) g val exist apart =
      Returns->>= (delete_edges_to_correct node u g val (exist u first)) (λ p d.
        let one = DeletedTo-Emptied u g p (apart u first) d in
        let size : (v : ℕ) → v < g.node_list.size → v < p.1.node_list.size =
          λ v r. omega (arith, r, one.same_nodes) in
        Returns-weaken
          (delete_from_lem us p.1 one.valid (λ v m. size v (exist v (later m)))
            (λ v m. apart v (later m)))
          (λ g' rest. record {
            valid = rest.valid;
            same_nodes = rest.same_nodes ∙ one.same_nodes;
            shrinks =
                λ v r. Shrinks-trans node v g p.1 g' (one.shrinks v r) (rest.shrinks v (size v r));
            stays = λ v r a. rest.stays v (size v r) (one.stays v r a);
            clear = λ v r m. elim (IsIn-cases m) [
              | inl z ↦
                  rest.stays v (size v r)
                    (one.clear v r (subst (λ x. IsIn v (x ∷ [])) (sym z) first))
              | inr k ↦ rest.clear v (size v r) k
            ];
            own = λ r. rest.own (size node r) ∙ one.own r;
          }))

  -- The neighbours found on the edges before `e`.
  record Listed (g : DynamicGraph ContractorEdgeData) (e : ℕ) (us : List ℕ) : Type 0 where
    listed :
        (j : ℕ)
        → (g.node_list.at node).first_edge ≤ j
        → j < e
        → (g.edge_list.at j).target ≢ node
        → IsIn (g.edge_list.at j).target us
    exist : (u : ℕ) → IsIn u us → u < g.node_list.size
    apart : (u : ℕ) → IsIn u us → u ≢ node

  add_neighbour_lem :
      (g : DynamicGraph ContractorEdgeData) (j : ℕ) (us : List ℕ)
      → (g.edge_list.at j).target < g.node_list.size
      → Listed g j us
      → Returns (Listed g (j + 1)) (add_neighbour node (g.edge_list.at j) us)
  unfolding add_neighbour
  add_neighbour_lem g j us real l = elim (Bool-cases ((g.edge_list.at j).target == node)) [
    | inl t ↦ rw t (
        done (record {
          listed = one_more _ _ j l.listed (λ other. absurd (ground (arith, t, other)));
          exist = l.exist;
          apart = l.apart;
        }))
    | inr t ↦ rw t (
        done (record {
          listed =
              one_more _ _ j (λ i p q other. IsIn-append _ (l.listed i p q other))
                (λ other. IsIn-append_right us);
          exist = λ u m. elim (IsIn-append_cases us m) [
            | inl k ↦ l.exist u k
            | inr z ↦ omega (arith, z, real)
          ];
          apart = λ u m. elim (IsIn-append_cases us m) [
            | inl k ↦ l.apart u k
            | inr z ↦ (λ e. ground (arith, t, z, e))
          ];
        }))
  ]

  -- What DeleteIncomingEdges leaves: the node's edges, and of those of all others the ones that do
  -- not lead to it.
  pub record Isolated (g g' : DynamicGraph ContractorEdgeData) : Type 0 where
    pub valid : IsValid g'
    pub same_nodes : g'.node_list.size ≡ g.node_list.size
    pub own : adjacent node g' ≡ adjacent node g
    pub shrinks : (v : ℕ) → v < g.node_list.size → Shrinks node v g g'
    pub clear : (v : ℕ) → v < g.node_list.size → v ≢ node → Avoids node (adjacent v g')

  -- In a valid graph whose edges lead between its nodes and all have an edge back, DeleteIncomingEdges
  -- of an existing node returns, keeps the graph valid and the edges of the node, and takes from the
  -- edges of every other node those that lead to the node, all of them and no others.
  pub delete_incoming_edges_correct :
      (thread : ContractorThreadData) (g : DynamicGraph ContractorEdgeData)
      → IsValid g
      → ((u j : ℕ)
          → u < g.node_list.size
          → Within (g.node_list.at u) j
          → (g.edge_list.at j).target < g.node_list.size)
      → ((a b : ℕ) → a < g.node_list.size → Joined g a b → Joined g b a)
      → node < g.node_list.size
      → Returns (λ p. Isolated g p.1) (delete_incoming_edges thread node g)
  unfolding delete_incoming_edges
  delete_incoming_edges_correct thread g val targets both real =
      Returns->>=
        (for_adjacent_lem (add_neighbour node) (Listed g) node g [] real (val.inside node real)
          (λ j us w l. add_neighbour_lem g j us (targets node j real w) l)
          (record {
            listed = λ j p q. absurd (omega (arith, p, q));
            exist = λ u m. elim m [ ];
            apart = λ u m. elim m [ ];
          }))
        (λ us l.
          let back : (u : ℕ) → IsIn u (unique (sort us)) → IsIn u us =
            λ u m. sort-IsIn us (unique-IsIn (sort us) m) in
          Returns->>=
            (delete_from_lem (unique (sort us)) g val (λ u m. l.exist u (back u m))
              (λ u m. l.apart u (back u m)))
            (λ g' d. done (record {
              valid = d.valid;
              same_nodes = d.same_nodes;
              own = d.own real;
              shrinks = d.shrinks;
              clear = λ v r other.
                  elim (avoids_or_leads node g.edge_list.at (g.node_list.at v).first_edge
                    (g.node_list.at v).edges) [
                      | inl a ↦ d.stays v r a
                      | inr (j, w, e) ↦
                          let (i, w', z) = both v node r (j, w, e) in
                          let m = l.listed i w'.0 w'.1 (λ y. other (sym z ∙ y)) in
                          d.clear v r
                            (IsIn-unique (sort us) (IsIn-sort us (subst (λ x. IsIn x us) z m)))
                    ];
            })))
