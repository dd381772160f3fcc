-- ===== src/Tables.antt =====
-- core-side-patch/models.py: core's tables as lists of rows, with the columns that the code reads or
-- writes. Of a property's value and of a weight only equality is read.
pub mod Upsert
pub mod Links
use p2_ai_knowledge_graph_fo.Base.{
  ℕ, ◌+◌, suc, Bool, true, false, not, ◌&&◌, ◌||◌, List, [], ◌∷◌, ◌++◌, Option, none, some, Text,
  codes, Dict, lookup, put, if◌then◌else◌, ◌==◌, list_eq, nat_eq, pair_eq, keep_if, contains, map,
  all, find_first, ◌>>=◌,
}
use p2_ai_knowledge_graph_fo.Schema.{node_ai_system, node_obligation, node_control_type}
use p2_ai_knowledge_graph_fo.Validation.{Catalog}

abbrev pub Properties : Type 0
Properties = Dict Text Text

-- `a == b` for dicts: the same keys with the same values, in any order.
unfoldable pub option_beq : Option Text → Option Text → Bool
option_beq none none = true
option_beq (some a) (some b) = a == b
option_beq none (some b) = false
option_beq (some a) none = false

unfoldable pub same_properties : Properties → Properties → Bool
same_properties a b = all (λ p. option_beq (lookup p.0 a) (lookup p.0 b)) (a ++ b)

-- governance_graph_nodes
pub record GovernanceGraphNode : Type 0 where
  pub id : ℕ
  pub org_id : ℕ
  pub node_type : Text
  pub node_key : Text
  pub properties : Properties
  pub archived : Bool

-- governance_graph_edges
pub record GovernanceGraphEdge : Type 0 where
  pub id : ℕ
  pub org_id : ℕ
  pub source_node_id : ℕ
  pub target_node_id : ℕ
  pub edge_type : Text
  pub weight : ℕ
  pub properties : Properties
  pub is_active : Bool

-- governance_graph_traversal_results
pub record TraversalResult : Type 0 where
  pub id : ℕ
  pub org_id : ℕ
  pub ai_system_id : Text
  pub input_context : List (Text × Text)
  pub derived_obligations : List Text
  pub derived_controls : List Text
  pub graph_path : Option (List (List Text))
  pub methodology_version : Text
  pub trigger_reason : Text
  pub validation_status : Text

-- ai_system_obligation_links; one of the two ids of a row is null
pub record ObligationLink : Type 0 where
  pub org_id : ℕ
  pub ai_system_id : Text
  pub obligation_id : Option Text
  pub control_type_id : Option Text

-- The database; `next_id` is larger than every id given out.
pub record Session : Type 0 where
  pub nodes : List GovernanceGraphNode
  pub edges : List GovernanceGraphEdge
  pub results : List TraversalResult
  pub links : List ObligationLink
  pub next_id : ℕ

-- `query.one_or_none()`: outer `none` if several rows match, which raises `MultipleResultsFound`.
unfoldable pub one_or_none : {A : Type 0} → List A → Option (Option A)
one_or_none [] = some none
one_or_none (a ∷ []) = some (some a)
one_or_none (a ∷ b ∷ rows) = none

-- Active ids of one type, of one organisation.
unfoldable pub active_keys : Session → ℕ → Text → List Text
active_keys session org_id node_type =
    map (λ n. n.node_key)
      (keep_if (λ n. (n.org_id == org_id) && (n.node_type == node_type) && not n.archived)
        session.nodes)

unfoldable pub load_active_catalog : Session → ℕ → Catalog
load_active_catalog session org_id = record {
  obligation = active_keys session org_id node_obligation;
  control_type = active_keys session org_id node_control_type;
}

unfoldable pub get_node : Session → ℕ → ℕ → Option (Option GovernanceGraphNode)
get_node session org_id node_id =
    one_or_none
      (keep_if (λ n. (n.id == node_id) && (n.org_id == org_id) && not n.archived) session.nodes)

unfoldable pub create_manual_edge :
    Session → ℕ → ℕ → ℕ → Text → ℕ → Properties → Session × GovernanceGraphEdge
create_manual_edge session org_id source_node_id target_node_id edge_type weight properties =
    let edge : GovernanceGraphEdge = record {
      id = session.next_id;
      org_id = org_id;
      source_node_id = source_node_id;
      target_node_id = target_node_id;
      edge_type = edge_type;
      weight = weight;
      properties = properties;
      is_active = true;
    } in
    (record session { edges = session.edges ++ edge ∷ []; next_id = suc session.next_id }, edge)

unfoldable pub has_natural_key : ℕ → Text → Text → GovernanceGraphNode → Bool
has_natural_key org_id node_type node_key n =
    (n.org_id == org_id) && (n.node_type == node_type) && (n.node_key == node_key)

unfoldable pub get_node_by_natural_key :
    Session → ℕ → Text → Text → Option (Option GovernanceGraphNode)
get_node_by_natural_key session org_id node_type node_key =
    one_or_none
      (keep_if (λ n. has_natural_key org_id node_type node_key n && not n.archived) session.nodes)

unfoldable pub node_id_of : Option GovernanceGraphNode → Option ℕ
node_id_of none = none
node_id_of (some n) = some n.id

unfoldable pub resolve_ai_system_node_id : Session → ℕ → Text → Option (Option ℕ)
resolve_ai_system_node_id session org_id ai_system_id = do
  node ← get_node_by_natural_key session org_id node_ai_system ai_system_id
  some (node_id_of node)

-- A link row that the code would write.
abbrev pub link : ℕ → Text → Option Text → Option Text → ObligationLink
link org_id ai_system_id obligation_id control_type_id = record {
  org_id = org_id;
  ai_system_id = ai_system_id;
  obligation_id = obligation_id;
  control_type_id = control_type_id;
}

-- The pairs of ids that a system has links for.
unfoldable pub existing_links : Session → ℕ → Text → List ObligationLink
existing_links session org_id ai_system_id =
    keep_if (λ l. (l.org_id == org_id) && (l.ai_system_id == ai_system_id)) session.links

unfoldable pub same_link : Option Text → Option Text → ObligationLink → Bool
same_link obligation_id control_type_id l =
    option_beq obligation_id l.obligation_id && option_beq control_type_id l.control_type_id

unfoldable pub is_linked : List ObligationLink → Option Text → Option Text → Bool
is_linked [] obligation_id control_type_id = false
is_linked (l ∷ existing) obligation_id control_type_id =
    same_link obligation_id control_type_id l || is_linked existing obligation_id control_type_id

unfoldable pub links_to_add : Session → ℕ → Text → List Text → List Text → List ObligationLink
links_to_add session org_id ai_system_id derived_obligations derived_controls =
    let existing = existing_links session org_id ai_system_id in
    map (λ o. link org_id ai_system_id (some o) none)
      (keep_if (λ o. not (is_linked existing (some o) none)) derived_obligations)
    ++ map (λ c. link org_id ai_system_id none (some c))
        (keep_if (λ c. not (is_linked existing none (some c))) derived_controls)

unfoldable pub upsert_ai_system_obligation_links :
    Session → ℕ → Text → List Text → List Text → Session × List ObligationLink
upsert_ai_system_obligation_links session org_id ai_system_id derived_obligations derived_controls =
    let to_add = links_to_add session org_id ai_system_id derived_obligations derived_controls in
    (record session { links = session.links ++ to_add }, to_add)
