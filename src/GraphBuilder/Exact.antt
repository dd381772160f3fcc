-- ===== src/GraphBuilder/Exact.antt =====
-- src/p2_satellite/graph_builder.py: the edges of the graph that build_graph returns.
use mathlib.Core.List.Memᴰ
use p2_ai_knowledge_graph_fo.Base.{
  ◌≡◌, refl, true, List, ◌++◌, Text, Memᴰ, contains, list_beq, list_eq, nat_eq, ◌==◌, if◌then◌else◌,
}
use p2_ai_knowledge_graph_fo.Schema.{
  validate_edge_type, node_types, node_regulation, node_jurisdiction, node_data_category,
  node_control_type, node_obligation, node_risk_tier, edge_system_uses, edge_system_deploys_in,
  edge_data_triggers, edge_jurisdiction_has, edge_regulation_requires, edge_obligation_needs,
  edge_system_classified_as, edge_risk_tier_adds,
}
use p2_ai_knowledge_graph_fo.GraphBuilder.{
  ObligationItem, Exports, Call, edge, for_each, linked, linked_from, calls_of_jurisdiction,
  calls_of_obligation, calls_of_regulation, calls_of_risk_tier, calls_of_ai_system, calls_of,
}
use p2_ai_knowledge_graph_fo.GraphBuilder.Calls.{
  OfObligation, required, needed, Exported, jurisdiction_has, data_triggers, regulation_requires,
  risk_tier_adds, system_uses, system_deploys_in, system_classified_as, mem-for_each,
}

in_linked : (t : Text) (a b : Text × Text) → Memᴰ (edge t a b) (linked t a b)
unfolding linked
in_linked t a b = Memᴰ.tail (Memᴰ.head refl)

in_linked_from : (t : Text) (a b : Text × Text) → Memᴰ (edge t a b) (linked_from t a b)
unfolding linked_from
in_linked_from t a b = Memᴰ.tail (Memᴰ.head refl)

in_loop :
    {A : Type 0} {a : A} {xs : List A} (body : A → List Call) {c : Call}
    → Memᴰ a xs
    → Memᴰ c (body a)
    → Memᴰ c (for_each xs body)
in_loop {a = a} {xs = xs} body {c = c} m here = (mem-for_each c xs body).1 (a, m, here)

first_of : {c : Call} {s : List Call} (t : List Call) → Memᴰ c s → Memᴰ c (s ++ t)
first_of t m = Memᴰ.append_left t m

second_of : {c : Call} (s : List Call) {t : List Call} → Memᴰ c t → Memᴰ c (s ++ t)
second_of s m = Memᴰ.append_right s m

in_obligation :
    (t : Text) (source : Text × Text) (ob : ObligationItem) {t' : Text} {a b : Text × Text}
    → OfObligation t source ob t' a b
    → Memᴰ (edge t' a b) (calls_of_obligation t source ob)
unfolding calls_of_obligation
in_obligation t source ob required = first_of _ (in_linked t source (node_obligation, ob.key))
in_obligation t source ob (needed {c = c} m) =
    second_of _ (
      in_loop _ m
        (in_linked edge_obligation_needs (node_obligation, ob.key) (node_control_type, c)))

pub in_calls :
    (x : Exports) {t : Text} {a b : Text × Text} → Exported x t a b → Memᴰ (edge t a b) (calls_of x)
unfolding calls_of calls_of_jurisdiction calls_of_regulation calls_of_risk_tier calls_of_ai_system
in_calls x (jurisdiction_has in_x m) =
    first_of _
      (first_of _ (first_of _ (in_loop _ in_x (Memᴰ.tail (in_loop _ m (in_linked _ _ _))))))
in_calls x (data_triggers in_x m) = first_of _ (
    first_of _
      (second_of _ (in_loop _ in_x (Memᴰ.tail (first_of _ (in_loop _ m (in_linked_from _ _ _)))))))
in_calls x (regulation_requires in_x m o) = first_of _ (
    first_of _ (
      second_of _ (in_loop _ in_x (Memᴰ.tail (second_of _ (in_loop _ m (in_obligation _ _ _ o)))))))
in_calls x (risk_tier_adds in_x m o) =
    first_of _ (second_of _ (in_loop _ in_x (Memᴰ.tail (in_loop _ m (in_obligation _ _ _ o)))))
in_calls x (system_uses in_x m) =
    second_of _
      (in_loop _ in_x (Memᴰ.tail (first_of _ (first_of _ (in_loop _ m (in_linked _ _ _))))))
in_calls x (system_deploys_in in_x m) =
    second_of _
      (in_loop _ in_x (Memᴰ.tail (first_of _ (second_of _ (in_loop _ m (in_linked _ _ _))))))
in_calls x (system_classified_as in_x) =
    second_of _ (in_loop _ in_x (Memᴰ.tail (second_of _ (in_linked _ _ _))))

-- The one type of an edge between nodes of these types.
abbrev pub between : Text → Text → Text
between s t =
    if s == node_jurisdiction
    then edge_jurisdiction_has
    else if s == node_data_category
    then edge_data_triggers
    else if s == node_regulation
    then edge_regulation_requires
    else if s == node_obligation
    then edge_obligation_needs
    else if s == node_risk_tier
    then edge_risk_tier_adds
    else if t == node_data_category
    then edge_system_uses
    else if t == node_jurisdiction
    then edge_system_deploys_in
    else edge_system_classified_as

-- The calls raise nothing, and the types of the nodes give that of the edge.
abbrev pub Valid : Text → Text × Text → Text × Text → Type 0
Valid t a b =
    (validate_edge_type t ≡ true)
    × (contains a.0 node_types ≡ true)
    × (contains b.0 node_types ≡ true)
    × (t ≡ between a.0 b.0)

Valid-obligation :
    {t : Text} {source : Text × Text} {ob : ObligationItem} {t' : Text} {a b : Text × Text}
    → Valid t source (node_obligation, ob.key)
    → OfObligation t source ob t' a b
    → Valid t' a b
unfolding validate_edge_type contains list_beq
Valid-obligation v required = v
Valid-obligation v (needed m) = (refl, refl, refl, refl)

pub Exported-Valid : (x : Exports) {t : Text} {a b : Text × Text} → Exported x t a b → Valid t a b
unfolding validate_edge_type contains list_beq
Exported-Valid x (jurisdiction_has in_x m) = (refl, refl, refl, refl)
Exported-Valid x (data_triggers in_x m) = (refl, refl, refl, refl)
Exported-Valid x (regulation_requires in_x m o) = Valid-obligation (refl, refl, refl, refl) o
Exported-Valid x (risk_tier_adds in_x m o) = Valid-obligation (refl, refl, refl, refl) o
Exported-Valid x (system_uses in_x m) = (refl, refl, refl, refl)
Exported-Valid x (system_deploys_in in_x m) = (refl, refl, refl, refl)
Exported-Valid x (system_classified_as in_x) = (refl, refl, refl, refl)
