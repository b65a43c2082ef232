-- ===== src/Lineage/Store/Reach.antt =====
-- Which assets the traversals of backend/app/lineage/store.py report.
use lineageiq.Common.{
  ℕ, suc, true, false, not, ◌&&◌, String, str_eq, has, has-keep, has-sort_texts, List, [], keep,
  ◌≡◌, ◌↔◌, refl, sym, ◌∙◌, subst, arith, Bool-cases, inl, inr,
}
use lineageiq.Effects.{Result, ok}
use lineageiq.Lineage.Store.{
  Graph, NetworkX, LineageQueryResult, node_ids, has_edge, is_impact_node, subgraph_result, require,
  downstream, upstream, reverse_list,
}

-- A walk along edges, of at most so many steps.
pub data Within (g : Graph) : ℕ → String → String → Type 0 where
  stop : (r : ℕ) (n : String) → Within g r n n
  step : (r : ℕ) (n m k : String) → has_edge g n m ≡ true → Within g r m k → Within g (suc r) n k

-- What networkx documents: an ego graph has the nodes within the radius, and the reverse graph has
-- the edges turned around.
pub record IsNetworkX (nx : NetworkX) : Type 0 where
  pub ego_nodes :
      (g : Graph) (n : String) (r : ℕ) (a : String)
      → (has a (node_ids (nx.ego_graph g n r)) ≡ true) ↔ Within g r n a
  pub reversed : (g : Graph) (u v : String) → has_edge (nx.reverse g) u v ≡ has_edge g v u

module _ (nx : NetworkX) (l : IsNetworkX nx) where
  affected-Within :
      (g view : Graph) (turn : List String → List String) (flip : String × String → String × String)
      (n direction : String) (r : ℕ) (a : String)
      → (has a (subgraph_result nx g turn flip n view direction r).affected_assets ≡ true)
        ↔ ((str_eq a n ≡ false) × (is_impact_node g a ≡ true) × Within view r n a)
  unfolding subgraph_result
  affected-Within g view turn flip n direction r a =
      let ids = node_ids (nx.ego_graph view n r) in
      let q = λ (m : String). not (str_eq m n) && is_impact_node g m in
      let test = has-sort_texts a (keep q ids) ∙ has-keep a q ids in
      (
        λ h.
            let e : (not (str_eq a n) && is_impact_node g a && has a ids) ≡ true = sym test ∙ h in
            (ground (arith, e), ground (arith, e), (l.ego_nodes view n r a).0 (ground (arith, e))),
        λ h. let inside = (l.ego_nodes view n r a).1 h.2 in test ∙ rw (h.0, h.1, inside) refl,
      )

snoc :
    (g : Graph) (r : ℕ) (a m n : String)
    → Within g r a m
    → has_edge g m n ≡ true
    → Within g (suc r) a n
snoc g _ _ _ n (stop r a) e = step r a n n e (stop r n)
snoc g _ _ _ n (step r a b m h w) e = step (suc r) a b n h (snoc g r b m n w e)

-- A walk in the reverse graph is a walk from its end to its start.
turned :
    (nx : NetworkX) (l : IsNetworkX nx) (g : Graph) (r : ℕ) (n a : String)
    → Within (nx.reverse g) r n a
    → Within g r a n
turned nx l g _ _ _ (stop r n) = stop r n
turned nx l g _ _ _ (step r n m a h w) =
    snoc g r a m n (turned nx l g r m a w) (sym (l.reversed g n m) ∙ h)

turned_back :
    (nx : NetworkX) (l : IsNetworkX nx) (g : Graph) (r : ℕ) (a n : String)
    → Within g r a n
    → Within (nx.reverse g) r n a
turned_back nx l g _ _ _ (stop r n) = stop r n
turned_back nx l g _ _ _ (step r a m n h w) =
    snoc (nx.reverse g) r n m a (turned_back nx l g r m n w) (l.reversed g m a ∙ h)

require-ok :
    {A : Type 0} (g : Graph) (n : String) (r : Result A) (a : A) → require g n r ≡ ok a → r ≡ ok a
require-ok g n r a h = elim (Bool-cases (has n (node_ids g))) [
  | inl e ↦ rw e at h
  | inr e ↦ cc (rw e at h)
]

-- Where networkx gives the nodes within the radius and turns edges around, what a traversal reports
-- as affected are exactly the reports, dashboards and metrics, other than the start, that a walk of
-- at most the depth's length reaches from the start downstream, or from which it reaches the start
-- upstream.
pub traversal-Within :
    (nx : NetworkX) (l : IsNetworkX nx) (g : Graph) (n : String) (r : ℕ) (a : String)
    → ((result : LineageQueryResult)
        → downstream nx g n r ≡ ok result
        → (has a result.affected_assets ≡ true)
          ↔ ((str_eq a n ≡ false) × (is_impact_node g a ≡ true) × Within g r n a))
      × ((result : LineageQueryResult)
          → upstream nx g n r ≡ ok result
          → (has a result.affected_assets ≡ true)
            ↔ ((str_eq a n ≡ false) × (is_impact_node g a ≡ true) × Within g r a n))
unfolding downstream upstream
traversal-Within nx l g n r a = (
  λ result h.
      let same : subgraph_result nx g (λ p. p) (λ e. e) n g "downstream" r ≡ result =
        cc (require-ok g n _ result h) in
      subst
        (λ (q : LineageQueryResult).
          (has a q.affected_assets ≡ true)
          ↔ ((str_eq a n ≡ false) × (is_impact_node g a ≡ true) × Within g r n a))
        same (affected-Within nx l g g (λ p. p) (λ e. e) n "downstream" r a),
  λ result h.
      let same : subgraph_result nx g (reverse_list []) (λ e. (e.1, e.0)) n (nx.reverse g)
            "upstream" r
          ≡ result =
        cc (require-ok g n _ result h) in
      let there =
        affected-Within nx l g (nx.reverse g) (reverse_list []) (λ e. (e.1, e.0)) n "upstream" r
          a in
      subst
        (λ (q : LineageQueryResult).
          (has a q.affected_assets ≡ true)
          ↔ ((str_eq a n ≡ false) × (is_impact_node g a ≡ true) × Within g r a n))
        same
        (
          λ h. let w = there.0 h in (w.0, w.1, turned nx l g r n a w.2),
          λ w. there.1 (w.0, w.1, turned_back nx l g r a n w.2),
        ),
)
