-- ===== src/GraphQuery.antt =====
-- core-side-patch/graph_query.py: core's own derivation on demand, the listing of nodes, and the
-- coverage gaps. The searches stand in the child modules.
pub mod Needs
pub mod Latest
pub mod Gaps
pub mod Search
pub mod OrgGraph
pub mod Subgraph
pub mod Upstream
use p2_ai_knowledge_graph_fo.Base.{
  ℕ, suc, ◌-◌, ◌*◌, Bool, true, false, not, ◌&&◌, List, [], ◌∷◌, ◌++◌, Option, none, some, Text,
  codes, map, keep_if, length, take, drop, lookup, contains, to_set, sorted, text_le, find_first,
  leb, if◌then◌else◌, ◌==◌, list_eq, nat_eq, ◌>>=◌,
}
use p2_ai_knowledge_graph_fo.Schema.{node_ai_system, edge_obligation_needs}
use p2_ai_knowledge_graph_fo.Tables.{
  Properties, Session, GovernanceGraphNode, GovernanceGraphEdge, TraversalResult, ObligationLink,
  existing_links, resolve_ai_system_node_id, upsert_ai_system_obligation_links,
}
use p2_ai_knowledge_graph_fo.Reference.{ReferenceDerived}
use p2_ai_knowledge_graph_fo.Ingest.{resolve_max_traversal_depth, derive_obligations_reference}

abbrev pub core_reference_methodology_version : Text
core_reference_methodology_version = codes "core-reference-v1.0.0"

abbrev pub self_derived : Text
self_derived = codes "self_derived"

-- `UnknownAiSystemError`, or the result.
pub data OnDemand : Type 0 where
  unknown_ai_system : OnDemand
  derived : Session → ℕ → ReferenceDerived → OnDemand

unfoldable pub persist_traversal : Session → ℕ → Text → Text → Bool → ReferenceDerived → OnDemand
persist_traversal session org_id ai_system_id trigger_reason persist_links r =
    let result : TraversalResult = record {
      id = session.next_id;
      org_id = org_id;
      ai_system_id = ai_system_id;
      input_context = (codes "trigger_reason", trigger_reason) ∷ [];
      derived_obligations = r.derived_obligations;
      derived_controls = r.derived_controls;
      graph_path = none;
      methodology_version = core_reference_methodology_version;
      trigger_reason = trigger_reason;
      validation_status = self_derived;
    } in
    let stored : Session = record session {
      results = session.results ++ result ∷ [];
      next_id = suc session.next_id;
    } in
    derived
      (if persist_links
        then (upsert_ai_system_obligation_links stored org_id ai_system_id r.derived_obligations
            r.derived_controls).0
        else stored)
      result.id r

unfoldable pub derive_from : Session → ℕ → Text → Text → Bool → Option ℕ → Option OnDemand
derive_from session org_id ai_system_id trigger_reason persist_links none = some unknown_ai_system
derive_from session org_id ai_system_id trigger_reason persist_links (some ai_system_node_id) = do
  r ← derive_obligations_reference session ai_system_node_id resolve_max_traversal_depth
  some (persist_traversal session org_id ai_system_id trigger_reason persist_links r)

unfoldable pub derive_and_persist_traversal : Session → ℕ → Text → Text → Bool → Option OnDemand
derive_and_persist_traversal session org_id ai_system_id trigger_reason persist_links = do
  node ← resolve_ai_system_node_id session org_id ai_system_id
  derive_from session org_id ai_system_id trigger_reason persist_links node

-- A node as the listing shows it: id, type, label, properties.
unfoldable pub label_of : Text → Option Text → Text
label_of node_key none = node_key
label_of node_key (some label) = label

unfoldable pub node_to_dict : GovernanceGraphNode → ℕ × Text × Text × Properties
node_to_dict n =
    (n.id, n.node_type, label_of n.node_key (lookup (codes "label") n.properties), n.properties)

unfoldable pub has_type : Option Text → GovernanceGraphNode → Bool
has_type none n = true
has_type (some t) n = n.node_type == t

-- `order_by(GovernanceGraphNode.id)`; a page is counted from 1.
unfoldable pub list_nodes :
    Session → ℕ → Option Text → ℕ → ℕ → List (ℕ × Text × Text × Properties) × ℕ
list_nodes session org_id node_type page page_size =
    let rows =
      keep_if (λ n. (n.org_id == org_id) && not n.archived && has_type node_type n) session.nodes in
    (
      map node_to_dict
          (take page_size (drop ((page - 1) * page_size) (sorted (λ n m. leb n.id m.id) rows))),
      length rows,
    )

-- `session.get(GovernanceGraphNode, id)`
unfoldable pub key_of_id : List GovernanceGraphNode → ℕ → Option Text
key_of_id [] id = none
key_of_id (n ∷ nodes) id = if n.id == id then some n.node_key else key_of_id nodes id

unfoldable pub needed_by : Text → Option Text → Option Text → List Text → List Text
needed_by obligation_id (some source_key) (some target_key) rest =
    if source_key == obligation_id then target_key ∷ rest else rest
needed_by obligation_id (some source_key) none rest = rest
needed_by obligation_id none target_key rest = rest

unfoldable pub needs : Session → ℕ → Text → List GovernanceGraphEdge → List Text
needs session org_id obligation_id [] = []
needs session org_id obligation_id (e ∷ edges) =
    let rest = needs session org_id obligation_id edges in
    if (e.org_id == org_id) && (e.edge_type == edge_obligation_needs) && e.is_active
    then needed_by obligation_id (key_of_id session.nodes e.source_node_id)
        (key_of_id session.nodes e.target_node_id) rest
    else rest

-- `obligation_needs.get(obligation_id)`, empty where it is missing
unfoldable pub obligation_needs : Session → ℕ → Text → List Text
obligation_needs session org_id obligation_id =
    to_set (needs session org_id obligation_id session.edges)

-- The last result of a system; results are stored in the order of time.
unfoldable pub latest_result : ℕ → Text → List TraversalResult → Option TraversalResult
latest_result org_id ai_system_id [] = none
latest_result org_id ai_system_id (r ∷ results) = elim (latest_result org_id ai_system_id results) [
  | some later ↦ some later
  | none ↦ if (r.org_id == org_id) && (r.ai_system_id == ai_system_id) then some r else none
]

unfoldable pub control_types_of : List ObligationLink → List Text
control_types_of [] = []
control_types_of (l ∷ links) =
    let rest = control_types_of links in elim l.control_type_id [ none ↦ rest | some c ↦ c ∷ rest ]

unfoldable pub linked_control_types : Session → ℕ → Text → List Text
linked_control_types session org_id ai_system_id =
    to_set (control_types_of (existing_links session org_id ai_system_id))

pub record Gap : Type 0 where
  pub ai_system_id : Text
  pub obligation_id : Text
  pub required_control_types : List Text
  pub linked_control_types : List Text

-- The body of the inner loop: `required & linked` is empty where a gap is reported.
unfoldable pub report_gap : Text → Text → List Text → List Text → List Gap → List Gap
report_gap ai_system_id obligation_id [] covering gaps = gaps
report_gap ai_system_id obligation_id (r ∷ required) (c ∷ covering) gaps = gaps
report_gap ai_system_id obligation_id (r ∷ required) [] gaps =
    record {
      ai_system_id = ai_system_id;
      obligation_id = obligation_id;
      required_control_types = sorted text_le (r ∷ required);
      linked_control_types = sorted text_le [];
    }
    ∷ gaps

unfoldable pub gaps_of_obligations : Session → ℕ → Text → List Text → List Gap
gaps_of_obligations session org_id ai_system_id [] = []
gaps_of_obligations session org_id ai_system_id (o ∷ obligations) =
    let rest = gaps_of_obligations session org_id ai_system_id obligations in
    let required = obligation_needs session org_id o in
    let linked = linked_control_types session org_id ai_system_id in
    report_gap ai_system_id o required (keep_if (λ c. contains c linked) required) rest

unfoldable pub gaps_of_system : Session → ℕ → Text → Option TraversalResult → List Gap
gaps_of_system session org_id ai_system_id none = []
gaps_of_system session org_id ai_system_id (some latest) =
    gaps_of_obligations session org_id ai_system_id latest.derived_obligations

unfoldable pub gaps_of_systems : Session → ℕ → List GovernanceGraphNode → List Gap
gaps_of_systems session org_id [] = []
gaps_of_systems session org_id (n ∷ nodes) =
    gaps_of_system session org_id n.node_key (latest_result org_id n.node_key session.results)
    ++ gaps_of_systems session org_id nodes

unfoldable pub find_coverage_gaps : Session → ℕ → List Gap
find_coverage_gaps session org_id = gaps_of_systems session org_id (
    keep_if (λ n. (n.org_id == org_id) && (n.node_type == node_ai_system) && not n.archived)
      session.nodes)
