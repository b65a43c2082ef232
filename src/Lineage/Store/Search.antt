-- ===== src/Lineage/Store/Search.antt =====
-- A graph library that fulfils what the theorems on backend/app/lineage/store.py take of networkx:
-- its ego graph follows all edges, as deep as the radius.
use lineageiq.Common.{
  ℕ, zero, suc, Bool, true, ◌&&◌, ◌||◌, String, str_eq, eq_iff, eq_refl, has, none, List, [], ◌∷◌,
  ◌++◌, map, any, any-append, ◌≡◌, refl, sym, ap, ◌∙◌, subst, arith, Bool-cases, inl, inr, ||-elim,
  ||-true_right, if◌then◌else◌,
}
use lineageiq.Lineage.Store.{NodeType, LineageNode, LineageEdge, Graph, NetworkX}
use lineageiq.Lineage.Store.Reach.{Within, stop, step, IsNetworkX}

-- What f gives for the targets of the edges from a node.
abbrev spread : (String → List String) → String → List LineageEdge → List String
spread f n [] = []
spread f n (e ∷ es) = if str_eq e.source n then f e.target ++ spread f n es else spread f n es

abbrev reach : Graph → ℕ → String → List String
reach g zero n = n ∷ []
reach g (suc r) n = n ∷ spread (reach g r) n g.edges

abbrev is_edge : String → String → LineageEdge → Bool
is_edge n m e = str_eq e.source n && str_eq e.target m

spread-edge :
    (f : String → List String) (n a : String) (es : List LineageEdge)
    → has a (spread f n es) ≡ true
    → (m : String) × (any (is_edge n m) es ≡ true) × (has a (f m) ≡ true)
spread-edge f n a [] h = cc
spread-edge f n a (e ∷ es) h = elim (Bool-cases (str_eq e.source n)) [
  | inr s ↦
      let rest = spread-edge f n a es (rw s at h) in
      (rest.0, ||-true_right (is_edge n rest.0 e) (any (is_edge n rest.0) es) rest.1, rest.2)
  | inl s ↦
      let split : (has a (f e.target) || has a (spread f n es)) ≡ true =
        sym (any-append (str_eq a) (f e.target) (spread f n es)) ∙ (rw s at h) in
      ||-elim (has a (f e.target)) (has a (spread f n es)) split
        (λ q. (e.target, rw (s, eq_refl e.target) refl, q))
        (λ q.
          let rest = spread-edge f n a es q in
          (rest.0, ||-true_right (is_edge n rest.0 e) (any (is_edge n rest.0) es) rest.1, rest.2))
]

edge-spread :
    (f : String → List String) (n m a : String) (es : List LineageEdge)
    → any (is_edge n m) es ≡ true
    → has a (f m) ≡ true
    → has a (spread f n es) ≡ true
edge-spread f n m a [] h q = cc
edge-spread f n m a (e ∷ es) h q = elim (Bool-cases (str_eq e.source n)) [
  | inr s ↦ rw s (edge-spread f n m a es (rw s at h) q)
  | inl s ↦ rw s (
      any-append (str_eq a) (f e.target) (spread f n es)
      ∙ ||-elim (str_eq e.target m) (any (is_edge n m) es) (rw s at h)
          (λ t.
            let here : has a (f e.target) ≡ true =
              ap (λ x. has a (f x)) ((eq_iff e.target m).0 t) ∙ q in
            rw here refl)
          (λ t.
            ||-true_right (has a (f e.target)) (has a (spread f n es))
              (edge-spread f n m a es t q)))
]

reach-Within : (g : Graph) (r : ℕ) (n a : String) → has a (reach g r n) ≡ true → Within g r n a
reach-Within g zero n a h =
    subst (λ x. Within g zero n x) (sym ((eq_iff a n).0 (ground (arith, h)))) (stop zero n)
reach-Within g (suc r) n a h =
    ||-elim (str_eq a n) (has a (spread (reach g r) n g.edges)) h
      (λ e. subst (λ x. Within g (suc r) n x) (sym ((eq_iff a n).0 e)) (stop (suc r) n))
      (λ e.
        let found = spread-edge (reach g r) n a g.edges e in
        step r n found.0 a found.1 (reach-Within g r found.0 a found.2))

reach_self : (g : Graph) (r : ℕ) (n : String) → has n (reach g r n) ≡ true
reach_self g zero n = rw (eq_refl n) refl
reach_self g (suc r) n = rw (eq_refl n) refl

Within-reach : (g : Graph) (r : ℕ) (n a : String) → Within g r n a → has a (reach g r n) ≡ true
Within-reach g _ _ _ (stop r n) = reach_self g r n
Within-reach g _ _ _ (step r n m k h w) =
    ||-true_right (str_eq k n) (has k (spread (reach g r) n g.edges))
      (edge-spread (reach g r) n m k g.edges h (Within-reach g r m k w))

abbrev as_node : String → LineageNode
as_node id = record { id = id; type = NodeType.table; label = id }

ids_of_nodes : (ids : List String) → map (λ n. n.id) (map as_node ids) ≡ ids
ids_of_nodes [] = refl
ids_of_nodes (i ∷ ids) = ap (λ xs. i ∷ xs) (ids_of_nodes ids)

abbrev turn_edge : LineageEdge → LineageEdge
turn_edge e = record e { source = e.target; target = e.source }

any-turn :
    (u v : String) (es : List LineageEdge)
    → any (is_edge u v) (map turn_edge es) ≡ any (is_edge v u) es
any-turn u v [] = refl
any-turn u v (e ∷ es) = ground (arith, any-turn u v es)

abbrev pub search_library : NetworkX
search_library = record {
  ego_graph = λ g n r. record { nodes = map as_node (reach g r n); edges = [] };
  reverse = λ g. record g { edges = map turn_edge g.edges };
  all_simple_paths = λ g u v cutoff. [];
  shortest_path = λ g u v. none;
}

pub search_library-IsNetworkX : IsNetworkX search_library
search_library-IsNetworkX = record {
  ego_nodes = λ g n r a. (
    λ h. reach-Within g r n a (sym (ap (has a) (ids_of_nodes (reach g r n))) ∙ h),
    λ w. ap (has a) (ids_of_nodes (reach g r n)) ∙ Within-reach g r n a w,
  );
  reversed = λ g u v. any-turn u v g.edges;
}
