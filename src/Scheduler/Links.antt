-- ===== src/Scheduler/Links.antt =====
-- orchestrator/src/engine/mod.rs: the maps that `validate` and `topological_order` build.
use mathlib.Core.Path.{subst}
use mathlib.Core.List.{append-nil, append_assoc}
use boruna.Prelude.{
  ◌≡◌, sym, ◌∙◌, String, Bool, true, ◌||◌, List, [], ◌∷◌, ◌++◌, arith, map, str_eq, eq_iff,
}
use boruna.Kahn.Sound.{is_key}
use boruna.Prelude.BTreeSet.{contains}
use boruna.Kahn.Loop.{link, Edge, Degrees, Dependents, insert_zero}
use boruna.Kahn.Rank.{EdgesWithin}
use boruna.Kahn.Building.{
  Grows, Grows-zero, Grows-empty, is_key-Grows, is_present, is_present-insert_zero,
}
use boruna.Scheduler.Graph.{WorkNode}
use boruna.Kahn.Building.{edges_to, Grows-link, is_present-link}
use boruna.Scheduler.Dag.{zero_all, zero_nodes, link_nodes, enter_nodes}

abbrev pub node_ids : List WorkNode → List String
node_ids nodes = map (λ n. n.id) nodes

-- the edges of a graph
abbrev pub edges_of : List WorkNode → List Edge
edges_of [] = []
edges_of (n ∷ rest) = edges_to n.id n.dependencies ++ edges_of rest

module _ (ids : List String) where
  abbrev known : String → Bool
  known v = contains v ids

  Grows-enter_nodes :
      (nodes : List WorkNode) (es : List Edge) (ds : Dependents) (deg : Degrees)
      → ((v : String) → contains v (node_ids nodes) ≡ true → known v ≡ true)
      → Grows known es ds deg
      → Grows known (es ++ edges_of nodes) (enter_nodes nodes ds deg).0 (enter_nodes nodes ds deg).1
  unfolding enter_nodes contains
  Grows-enter_nodes [] es ds deg h g = subst (λ l. Grows known l ds deg) (sym (append-nil es)) g
  Grows-enter_nodes (n ∷ rest) es ds deg h g =
      let k : known n.id ≡ true = h n.id (ground (arith, eq_iff n.id n.id)) in
      let entered =
        Grows-link (λ v. contains v ids) n.id n.dependencies es ds (insert_zero n.id deg) k
          (Grows-zero known es ds deg n.id g k) in
      let mid = link n.id n.dependencies ds (insert_zero n.id deg) in
      subst (λ l. Grows known l (enter_nodes rest mid.0 mid.1).0 (enter_nodes rest mid.0 mid.1).1)
        (append_assoc es (edges_to n.id n.dependencies) (edges_of rest))
        (Grows-enter_nodes rest (es ++ edges_to n.id n.dependencies) mid.0 mid.1
          (λ v m. h v (ground (arith, m))) entered)

  Grows-zero_all :
      (deps : List String) (ds : Dependents) (deg : Degrees) (id : String)
      → EdgesWithin ids (edges_to id deps)
      → Grows known [] ds deg
      → Grows known [] ds (zero_all deps deg)
  unfolding zero_all
  Grows-zero_all [] ds deg id w g = g
  Grows-zero_all (dep ∷ deps) ds deg id w g =
      Grows-zero_all deps ds (insert_zero dep deg) id w.1 (Grows-zero known [] ds deg dep g w.0.0)

  within_left :
      (es fs : List Edge) → EdgesWithin ids (es ++ fs) → EdgesWithin ids es × EdgesWithin ids fs
  within_left [] fs w = (tt, w)
  within_left (e ∷ es) fs w = let (a, b) = within_left es fs w.1 in ((w.0, a), b)

  Grows-zero_nodes :
      (nodes : List WorkNode) (deg : Degrees)
      → ((v : String) → contains v (node_ids nodes) ≡ true → known v ≡ true)
      → EdgesWithin ids (edges_of nodes)
      → Grows known [] [] deg
      → Grows known [] [] (zero_nodes nodes deg)
  unfolding zero_nodes contains
  Grows-zero_nodes [] deg h w g = g
  Grows-zero_nodes (n ∷ rest) deg h w g =
      let (here, later) = within_left (edges_to n.id n.dependencies) (edges_of rest) w in
      let k : known n.id ≡ true = h n.id (ground (arith, eq_iff n.id n.id)) in
      Grows-zero_nodes rest (zero_all n.dependencies (insert_zero n.id deg))
        (λ v m. h v (ground (arith, m))) later
        (Grows-zero_all n.dependencies [] (insert_zero n.id deg) n.id here
          (Grows-zero known [] [] deg n.id g k))

  Grows-link_nodes :
      (nodes : List WorkNode) (es : List Edge) (ds : Dependents) (deg : Degrees)
      → ((v : String) → contains v (node_ids nodes) ≡ true → known v ≡ true)
      → Grows known es ds deg
      → Grows known (es ++ edges_of nodes) (link_nodes nodes ds deg).0 (link_nodes nodes ds deg).1
  unfolding link_nodes contains
  Grows-link_nodes [] es ds deg h g = subst (λ l. Grows known l ds deg) (sym (append-nil es)) g
  Grows-link_nodes (n ∷ rest) es ds deg h g =
      let k : known n.id ≡ true = h n.id (ground (arith, eq_iff n.id n.id)) in
      let mid = link n.id n.dependencies ds deg in
      subst (λ l. Grows known l (link_nodes rest mid.0 mid.1).0 (link_nodes rest mid.0 mid.1).1)
        (append_assoc es (edges_to n.id n.dependencies) (edges_of rest))
        (Grows-link_nodes rest (es ++ edges_to n.id n.dependencies) mid.0 mid.1
          (λ v m. h v (ground (arith, m)))
          (Grows-link (λ v. contains v ids) n.id n.dependencies es ds deg k g))

is_present-enter_nodes :
    (v : String) (nodes : List WorkNode) (ds : Dependents) (deg : Degrees)
    → (contains v (node_ids nodes) || is_present v deg) ≡ true
    → is_present v (enter_nodes nodes ds deg).1 ≡ true
unfolding enter_nodes contains
is_present-enter_nodes v [] ds deg h = h
is_present-enter_nodes v (n ∷ rest) ds deg h =
    is_present-enter_nodes v rest _ _ (ground (arith, here))
  where
    here :
        (str_eq n.id v || is_present v deg) ≡ true
        → is_present v (link n.id n.dependencies ds (insert_zero n.id deg)).1 ≡ true
    here k =
        is_present-link v n.id n.dependencies ds (insert_zero n.id deg)
          (is_present-insert_zero v n.id deg ∙ k)

is_present-zero_all :
    (v : String) (deps : List String) (deg : Degrees)
    → is_present v deg ≡ true
    → is_present v (zero_all deps deg) ≡ true
unfolding zero_all
is_present-zero_all v [] deg h = h
is_present-zero_all v (dep ∷ deps) deg h =
    is_present-zero_all v deps (insert_zero dep deg)
      (is_present-insert_zero v dep deg ∙ ground (arith, h))

is_present-zero_nodes :
    (v : String) (nodes : List WorkNode) (deg : Degrees)
    → (contains v (node_ids nodes) || is_present v deg) ≡ true
    → is_present v (zero_nodes nodes deg) ≡ true
unfolding zero_nodes contains
is_present-zero_nodes v [] deg h = h
is_present-zero_nodes v (n ∷ rest) deg h =
    is_present-zero_nodes v rest (zero_all n.dependencies (insert_zero n.id deg))
      (ground (arith, here))
  where
    here :
        (str_eq n.id v || is_present v deg) ≡ true
        → is_present v (zero_all n.dependencies (insert_zero n.id deg)) ≡ true
    here k =
        is_present-zero_all v n.dependencies (insert_zero n.id deg)
          (is_present-insert_zero v n.id deg ∙ k)

is_present-link_nodes :
    (v : String) (nodes : List WorkNode) (ds : Dependents) (deg : Degrees)
    → is_present v deg ≡ true
    → is_present v (link_nodes nodes ds deg).1 ≡ true
unfolding link_nodes
is_present-link_nodes v [] ds deg h = h
is_present-link_nodes v (n ∷ rest) ds deg h =
    let mid = link n.id n.dependencies ds deg in
    is_present-link_nodes v rest mid.0 mid.1 (is_present-link v n.id n.dependencies ds deg h)

module _ (nodes : List WorkNode) where
  -- the maps of `topological_order` are a graph on the nodes
  pub entered-Grows :
      Grows
        (λ v. contains v (node_ids nodes))
        (edges_of nodes)
        (enter_nodes nodes [] []).0
        (enter_nodes nodes [] []).1
  entered-Grows =
      Grows-enter_nodes (node_ids nodes) nodes [] [] [] (λ v h. h)
        (Grows-empty (λ v. contains v (node_ids nodes)))

  pub entered_keys :
      (v : String) → is_key (enter_nodes nodes [] []).1 v ≡ contains v (node_ids nodes)
  entered_keys v =
      is_key-Grows (λ w. contains w (node_ids nodes)) (edges_of nodes) (enter_nodes nodes [] []).0
        (enter_nodes nodes [] []).1 entered-Grows
        (λ w h. is_present-enter_nodes w nodes [] [] (ground (arith, h))) v

  -- and those of `validate`, if the dependencies are nodes
  pub linked-Grows :
      EdgesWithin (node_ids nodes) (edges_of nodes)
      → Grows
          (λ v. contains v (node_ids nodes))
          (edges_of nodes)
          (link_nodes nodes [] (zero_nodes nodes [])).0
          (link_nodes nodes [] (zero_nodes nodes [])).1
  linked-Grows w =
      Grows-link_nodes (node_ids nodes) nodes [] [] (zero_nodes nodes []) (λ v h. h)
        (Grows-zero_nodes (node_ids nodes) nodes [] (λ v h. h) w
          (Grows-empty (λ v. contains v (node_ids nodes))))

  pub linked_keys :
      EdgesWithin (node_ids nodes) (edges_of nodes)
      → (v : String)
      → is_key (link_nodes nodes [] (zero_nodes nodes [])).1 v ≡ contains v (node_ids nodes)
  linked_keys w v =
      is_key-Grows (λ u. contains u (node_ids nodes)) (edges_of nodes)
        (link_nodes nodes [] (zero_nodes nodes [])).0 (link_nodes nodes [] (zero_nodes nodes [])).1
        (linked-Grows w)
        (λ u h.
          is_present-link_nodes u nodes [] (zero_nodes nodes [])
            (is_present-zero_nodes u nodes [] (ground (arith, h))))
        v
