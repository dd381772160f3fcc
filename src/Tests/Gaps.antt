-- ===== src/Tests/Gaps.antt =====
-- The theorem about the coverage gaps of core-side-patch/graph_query.py, at a concrete input.
use mathlib.Core.List.Memᴰ
use p2_ai_knowledge_graph_fo.Base.{
  ◌≡◌, refl, false, [], ◌∷◌, ◌++◌, none, codes, Memᴰ, Distinct, map, arith, inl, inr, list_beq,
  list_eq, nat_eq, contains, to_set, add, sorted, insert_sorted,
}
use p2_ai_knowledge_graph_fo.Tables.{Session, existing_links}
use p2_ai_knowledge_graph_fo.Ingest.{validated}
use p2_ai_knowledge_graph_fo.Schema.{node_control_type, edge_obligation_needs}
use p2_ai_knowledge_graph_fo.GraphQuery.{
  Gap, find_coverage_gaps, gaps_of_systems, gaps_of_system, gaps_of_obligations, report_gap,
  obligation_needs, needs, needed_by, key_of_id, latest_result, linked_control_types,
  control_types_of,
}
use p2_ai_knowledge_graph_fo.GraphQuery.Gaps.{IsSound, find_coverage_gaps-IsSound}
use p2_ai_knowledge_graph_fo.Tests.Store.{session, edge_row}

abbrev gap_session : Session
gap_session = record session {
  nodes =
      session.nodes
      ++ record {
        id = 5;
        org_id = 7;
        node_type = node_control_type;
        node_key = codes "c";
        properties = [];
        archived = false;
      }
        ∷ [];
  edges =
      record edge_row {
        id = 6;
        source_node_id = 2;
        target_node_id = 5;
        edge_type = edge_obligation_needs;
      }
      ∷ [];
  results =
      record {
        id = 4;
        org_id = 7;
        ai_system_id = codes "1";
        input_context = [];
        derived_obligations = codes "o" ∷ [];
        derived_controls = [];
        graph_path = none;
        methodology_version = codes "v";
        trigger_reason = codes "event";
        validation_status = validated;
      }
      ∷ [];
}

abbrev gap : Gap
gap = record {
  ai_system_id = codes "1";
  obligation_id = codes "o";
  required_control_types = codes "c" ∷ [];
  linked_control_types = [];
}

gap_reported : find_coverage_gaps gap_session 7 ≡ gap ∷ []
unfolding find_coverage_gaps gaps_of_systems gaps_of_system gaps_of_obligations report_gap
    obligation_needs needs needed_by key_of_id latest_result linked_control_types control_types_of
    existing_links list_beq to_set contains add sorted insert_sorted
gap_reported = refl

gap_ids : Distinct (map (λ n. n.id) gap_session.nodes)
gap_ids = (
  λ m. elim (Memᴰ.cases_cons m) [
    | inl e ↦ omega (arith, e)
    | inr later ↦ omega (arith, Memᴰ.eq_of_singleton later)
  ],
  (λ m. omega (arith, Memᴰ.eq_of_singleton m), (Memᴰ.not-nil, _)),
)

find_coverage_gaps-IsSound_example : IsSound gap_session 7 gap
find_coverage_gaps-IsSound_example =
    find_coverage_gaps-IsSound gap_session 7 gap gap_ids (rw gap_reported (Memᴰ.head refl))
