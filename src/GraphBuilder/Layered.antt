-- ===== src/GraphBuilder/Layered.antt =====
-- src/p2_satellite/schema.py and graph_builder.py: the edges of the exports are of the kinds that the
-- schema documents, so that walks are short.
use p2_ai_knowledge_graph_fo.Base.{
  ℕ, ◌+◌, ◌≤◌, ◌<◌, ◌≡◌, ap, ◌∙◌, some, Text, Memᴰ, arith, if◌then◌else◌, ◌==◌, list_eq, nat_eq,
  list_beq,
}
use p2_ai_knowledge_graph_fo.Paths.{Walk, here, step}
use p2_ai_knowledge_graph_fo.Schema.{
  split_node_id, node_ai_system, node_regulation, node_jurisdiction, node_data_category,
  node_control_type, node_obligation, node_risk_tier, edge_system_uses, edge_system_deploys_in,
  edge_data_triggers, edge_jurisdiction_has, edge_regulation_requires, edge_obligation_needs,
  edge_system_classified_as, edge_risk_tier_adds,
}
use p2_ai_knowledge_graph_fo.Traversal.{EdgeData}
use p2_ai_knowledge_graph_fo.GraphBuilder.{
  Networkx, Exports, ObligationItem, build_graph, active_edge,
}
use p2_ai_knowledge_graph_fo.GraphBuilder.Calls.{
  Exported, OfObligation, required, needed, jurisdiction_has, data_triggers, regulation_requires,
  risk_tier_adds, system_uses, system_deploys_in, system_classified_as,
}
use p2_ai_knowledge_graph_fo.GraphBuilder.Exact.{Exported-Valid}
use p2_ai_knowledge_graph_fo.GraphBuilder.Perform.{split-id_of}
use p2_ai_knowledge_graph_fo.GraphBuilder.Built.{build_graph-exact}

-- The comments of schema.py: the type of an edge, of its source and of its target.
pub data Documented : Text → Text → Text → Type 0 where
  uses : Documented edge_system_uses node_ai_system node_data_category
  deploys_in : Documented edge_system_deploys_in node_ai_system node_jurisdiction
  triggers : Documented edge_data_triggers node_data_category node_regulation
  has : Documented edge_jurisdiction_has node_jurisdiction node_regulation
  requires : Documented edge_regulation_requires node_regulation node_obligation
  needs : Documented edge_obligation_needs node_obligation node_control_type
  classified_as : Documented edge_system_classified_as node_ai_system node_risk_tier
  adds : Documented edge_risk_tier_adds node_risk_tier node_obligation

OfObligation-Documented :
    {edge_type : Text} {source : Text × Text} {ob : ObligationItem} {t : Text} {a b : Text × Text}
    → Documented edge_type source.0 node_obligation
    → OfObligation edge_type source ob t a b
    → Documented t a.0 b.0
OfObligation-Documented d required = d
OfObligation-Documented d (needed m) = needs

pub Exported-Documented :
    (x : Exports) {t : Text} {a b : Text × Text} → Exported x t a b → Documented t a.0 b.0
Exported-Documented x (jurisdiction_has in_x m) = has
Exported-Documented x (data_triggers in_x m) = triggers
Exported-Documented x (regulation_requires in_x m o) = OfObligation-Documented requires o
Exported-Documented x (risk_tier_adds in_x m o) = OfObligation-Documented adds o
Exported-Documented x (system_uses in_x m) = uses
Exported-Documented x (system_deploys_in in_x m) = deploys_in
Exported-Documented x (system_classified_as in_x) = classified_as

-- Whatever the exports hold, the graph is built, and each of its edges is active and of a type that the schema
-- documents between the types of its ends.
pub build_graph-Documented :
    {G : Type 0} (nx : Networkx G) (x : Exports)
    → (g : G) × (build_graph nx x ≡ some g)
      × ((u v : Text) (d : EdgeData)
          → Memᴰ (u, v, d) (nx.edges g)
          → (t : Text) × (d ≡ active_edge t) × Documented t (split_node_id u).0 (split_node_id v).0)
build_graph-Documented nx x =
    let (g, builds, exact) = build_graph-exact nx x in
    (
      g,
      builds,
      λ u v d m.
          let (t, a, b, e, starts, ends, eq) = (exact u v d).0 m in
          let (_, known, known', _) = Exported-Valid x e in
          let source = ap split_node_id starts ∙ split-id_of a known in
          let target = ap split_node_id ends ∙ split-id_of b known' in
          (t, eq, rw (source, target) (Exported-Documented x e)),
    )

-- A node of the exports leads to another.
abbrev pub Joined : Exports → Text × Text → Text × Text → Type 0
Joined x a b = (t : Text) × Exported x t a b

abbrev rank : Text → ℕ
rank t =
    if t == node_ai_system
    then 0
    else if t == node_regulation
    then 2
    else if t == node_obligation
    then 3
    else if t == node_control_type
    then 4
    else 1

rank-le : (t : Text) → rank t ≤ 4
rank-le t = ground arith

rank-lt : {t a b : Text} → Documented t a b → rank a < rank b
unfolding list_beq
rank-lt uses = omega arith
rank-lt deploys_in = omega arith
rank-lt triggers = omega arith
rank-lt has = omega arith
rank-lt requires = omega arith
rank-lt needs = omega arith
rank-lt classified_as = omega arith
rank-lt adds = omega arith

Walk-rank :
    (x : Exports) {a b : Text × Text} {n : ℕ} → Walk (Joined x) a n b → n + rank a.0 ≤ rank b.0
Walk-rank x here = omega arith
Walk-rank x (step w (t, e)) =
    let before = Walk-rank x w in
    let one = rank-lt (Exported-Documented x e) in omega (arith, before, one)

-- A walk in the exports has at most four edges.
pub length-Walk-le : (x : Exports) {a b : Text × Text} {n : ℕ} → Walk (Joined x) a n b → n ≤ 4
length-Walk-le x {b = b} w =
    let high = rank-le b.0 in let whole = Walk-rank x w in omega (arith, high, whole)
