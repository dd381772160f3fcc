-- ===== src/Schema.antt =====
-- src/p2_satellite/schema.py: node and edge type names, and the node id convention.
pub mod RoundTrip
use p2_ai_knowledge_graph_fo.Base.{
  ℕ, Bool, List, [], ◌∷◌, ◌++◌, Option, none, some, Text, codes, contains, partition, if◌then◌else◌,
  list_eq, nat_eq,
}

abbrev pub node_ai_system : Text
node_ai_system = codes "ai_system"

abbrev pub node_regulation : Text
node_regulation = codes "regulation"

abbrev pub node_jurisdiction : Text
node_jurisdiction = codes "jurisdiction"

abbrev pub node_data_category : Text
node_data_category = codes "data_category"

abbrev pub node_control_type : Text
node_control_type = codes "control_type"

abbrev pub node_obligation : Text
node_obligation = codes "obligation"

abbrev pub node_risk_tier : Text
node_risk_tier = codes "risk_tier"

abbrev pub node_types : List Text
node_types =
    node_ai_system ∷ node_regulation ∷ node_jurisdiction ∷ node_data_category ∷ node_control_type
    ∷ node_obligation ∷ node_risk_tier ∷ []

abbrev pub edge_system_uses : Text
edge_system_uses = codes "system_uses"

abbrev pub edge_system_deploys_in : Text
edge_system_deploys_in = codes "system_deploys_in"

abbrev pub edge_data_triggers : Text
edge_data_triggers = codes "data_triggers"

abbrev pub edge_jurisdiction_has : Text
edge_jurisdiction_has = codes "jurisdiction_has"

abbrev pub edge_regulation_requires : Text
edge_regulation_requires = codes "regulation_requires"

abbrev pub edge_obligation_needs : Text
edge_obligation_needs = codes "obligation_needs"

abbrev pub edge_system_classified_as : Text
edge_system_classified_as = codes "system_classified_as"

abbrev pub edge_risk_tier_adds : Text
edge_risk_tier_adds = codes "risk_tier_adds"

abbrev pub edge_types : List Text
edge_types =
    edge_system_uses ∷ edge_system_deploys_in ∷ edge_data_triggers ∷ edge_jurisdiction_has
    ∷ edge_regulation_requires ∷ edge_obligation_needs ∷ edge_system_classified_as
    ∷ edge_risk_tier_adds ∷ []

abbrev pub terminal_node_types : List Text
terminal_node_types = node_obligation ∷ node_control_type ∷ []

abbrev pub colon : ℕ
colon = b':'

-- `none` is the `ValueError` of an unknown node type.
unfoldable pub node_id : Text → Text → Option Text
node_id node_type node_key =
    if contains node_type node_types then some (node_type ++ colon ∷ node_key) else none

unfoldable pub split_node_id : Text → Text × Text
unfolding partition
split_node_id nid = let (node_type, _, node_key) = partition colon nid in (node_type, node_key)

unfoldable pub edge_key : Text → Text → Text → Text
edge_key edge_type source_id target_id =
    edge_type ++ colon ∷ (source_id ++ (codes "->" ++ target_id))

-- Whether `validate_edge_type` returns: it raises a `ValueError` otherwise.
unfoldable pub validate_edge_type : Text → Bool
validate_edge_type edge_type = contains edge_type edge_types
