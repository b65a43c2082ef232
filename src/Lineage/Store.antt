-- ===== src/Lineage/Store.antt =====
-- backend/app/lineage/store.py and types.py: the graph of assets, over networkx as a parameter.
-- A graph's nodes and edges come in the order in which they were added. Metadata of nodes is stored
-- and never inspected, and is left out.
pub mod Reach
pub mod Search
use lineageiq.Common.{
  ℕ, Bool, true, false, not, ◌&&◌, ◌||◌, String, str_eq, has, sort_texts, Option, none, some, List,
  [], ◌∷◌, ◌++◌, map, keep, any, concat, length, take, if◌then◌else◌,
}
use lineageiq.Effects.{Result, ok, raised, value_error, key_error}

pub data NodeType : Type 0 where
  system api database table column pipeline job report dashboard business_metric : NodeType

pub data EdgeType : Type 0 where
  reads_from writes_to transforms depends_on calls publishes maps_to aggregates_into : EdgeType

-- `IMPACT_ASSET_TYPES`
abbrev pub is_impact : NodeType → Bool
is_impact NodeType.report = true
is_impact NodeType.dashboard = true
is_impact NodeType.business_metric = true
is_impact _ = false

pub record LineageNode : Type 0 where
  pub id : String
  pub type : NodeType
  pub label : String

pub record LineageEdge : Type 0 where
  pub source : String
  pub target : String
  pub type : EdgeType

-- The contents of a `DiGraph`.
pub record Graph : Type 0 where
  pub nodes : List LineageNode
  pub edges : List LineageEdge

abbrev pub node_ids : Graph → List String
node_ids g = map (λ n. n.id) g.nodes

abbrev pub has_edge : Graph → String → String → Bool
has_edge g u v = any (λ e. str_eq e.source u && str_eq e.target v) g.edges

-- What the store uses of networkx.
pub record NetworkX : Type 0 where
  -- `ego_graph(graph, node_id, radius)`
  pub ego_graph : Graph → String → ℕ → Graph
  -- `graph.reverse(copy=False)`
  pub reverse : Graph → Graph
  -- `list(all_simple_paths(graph, source, target, cutoff))`
  pub all_simple_paths : Graph → String → String → ℕ → List (List String)
  -- `shortest_path(graph, source, target)`, where `none` is NetworkXNoPath
  pub shortest_path : Graph → String → String → Option (List String)

abbrev set_node : LineageNode → List LineageNode → List LineageNode
set_node n [] = n ∷ []
set_node n (m ∷ ms) = if str_eq m.id n.id then n ∷ ms else m ∷ set_node n ms

abbrev pub add_node : LineageNode → Graph → Graph
add_node n g = record g { nodes = set_node n g.nodes }

abbrev set_edge : LineageEdge → List LineageEdge → List LineageEdge
set_edge e [] = e ∷ []
set_edge e (f ∷ fs) =
    if str_eq f.source e.source && str_eq f.target e.target then e ∷ fs else f ∷ set_edge e fs

abbrev pub add_edge : LineageEdge → Graph → Result Graph
add_edge e g =
    if not (has e.source (node_ids g)) || not (has e.target (node_ids g))
    then raised
        (value_error (concat ("Edge references unknown node: " ∷ e.source ∷ "->" ∷ e.target ∷ [])))
    else ok (record g { edges = set_edge e g.edges })

abbrev node_in : String → List LineageNode → Option LineageNode
node_in id [] = none
node_in id (n ∷ ns) = if str_eq n.id id then some n else node_in id ns

abbrev pub get_node : Graph → String → Option LineageNode
get_node g id = node_in id g.nodes

-- `self._g.nodes[n]["node"].type in IMPACT_ASSET_TYPES`
abbrev pub is_impact_node : Graph → String → Bool
is_impact_node g id = elim (get_node g id) [ none ↦ false | some n ↦ is_impact n.type ]

-- `LineageQueryResult`; the nodes by their ids, the edges by their ends
pub record LineageQueryResult : Type 0 where
  pub root : String
  pub direction : String
  pub nodes : List String
  pub edges : List (String × String)
  pub paths : List (List String)
  pub affected_assets : List String

abbrev pub has_successor : Graph → String → Bool
has_successor g id = any (λ e. str_eq e.source id) g.edges

abbrev pub reverse_list : List String → List String → List String
reverse_list acc [] = acc
reverse_list acc (x ∷ xs) = reverse_list (x ∷ acc) xs

abbrev paths_to :
    NetworkX → Graph → (List String → List String) → String → ℕ → List String → List (List String)
paths_to nx ego turn node_id max_depth [] = []
paths_to nx ego turn node_id max_depth (leaf ∷ leaves) =
    map turn (nx.all_simple_paths ego node_id leaf max_depth)
    ++ paths_to nx ego turn node_id max_depth leaves

-- `_subgraph_result`, on the graph or on its reverse; `turn` and `flip` give paths and edges back
-- the direction of the data.
unfoldable pub subgraph_result :
    NetworkX
    → Graph
    → (List String → List String)
    → (String × String → String × String)
    → String
    → Graph
    → String
    → ℕ
    → LineageQueryResult
subgraph_result nx g turn flip node_id view direction max_depth =
    let ego = nx.ego_graph view node_id max_depth in
    let ids = node_ids ego in
    let leaves = sort_texts (keep (λ n. not (str_eq n node_id) && not (has_successor ego n)) ids) in
    record {
      root = node_id;
      direction = direction;
      nodes = sort_texts ids;
      edges = map (λ e. flip (e.source, e.target)) ego.edges;
      paths = take 25 (paths_to nx ego turn node_id max_depth leaves);
      affected_assets = sort_texts (keep (λ n. not (str_eq n node_id) && is_impact_node g n) ids);
    }

-- `_require`, before the rest
abbrev pub require : {A : Type 0} → Graph → String → Result A → Result A
require g node_id r =
    if has node_id (node_ids g)
    then r
    else raised (key_error (concat ("Unknown lineage node: " ∷ node_id ∷ [])))

unfoldable pub downstream : NetworkX → Graph → String → ℕ → Result LineageQueryResult
downstream nx g node_id max_depth =
    require g node_id (ok (subgraph_result nx g (λ p. p) (λ e. e) node_id g "downstream" max_depth))

unfoldable pub upstream : NetworkX → Graph → String → ℕ → Result LineageQueryResult
upstream nx g node_id max_depth = require g node_id (
    ok (
      subgraph_result nx g (reverse_list []) (λ e. (e.1, e.0)) node_id (nx.reverse g) "upstream"
        max_depth))

unfoldable pub shortest_path : NetworkX → Graph → String → String → Result (Option (List String))
shortest_path nx g source target =
    require g source (require g target (ok (nx.shortest_path g source target)))

-- `impact`: the downstream result under another name
unfoldable pub impact : NetworkX → Graph → String → ℕ → Result LineageQueryResult
unfolding downstream
impact nx g node_id max_depth = elim (downstream nx g node_id max_depth) [
  | raised e ↦ raised e
  | ok result ↦ ok (record result { direction = "impact" })
]
