-- ===== src/Tests/Derivation.antt =====
-- The theorems about src/p2_satellite/traversal.py and about the contract with core, at the graph of
-- one system and one obligation.
use p2_ai_knowledge_graph_fo.Base.{
  ◌≡◌, refl, true, List, none, some, Text, codes, Memᴰ, ◌↔◌, arith, Distinct, list_beq, contains,
}
use p2_ai_knowledge_graph_fo.Schema.{
  node_id, split_node_id, node_ai_system, node_obligation, node_control_type,
}
use p2_ai_knowledge_graph_fo.Schema.RoundTrip.{split_node_id-node_id}
use p2_ai_knowledge_graph_fo.Traversal.{Derivation, derive_obligations}
use p2_ai_knowledge_graph_fo.Traversal.Correct.{Derived, derive_obligations-agrees}
use p2_ai_knowledge_graph_fo.Traversal.Reports.{TerminalPath, graph_path-exact}
use p2_ai_knowledge_graph_fo.Traversal.Coverage.{Gap, gap_entry, incomplete_coverage-exact}
use p2_ai_knowledge_graph_fo.Reference.{
  ReferenceDerived, derive_obligations_pure_python, node_lookup,
}
use p2_ai_knowledge_graph_fo.Reference.Correct.{NotTerminal}
use p2_ai_knowledge_graph_fo.Validation.{compare_derivation}
use p2_ai_knowledge_graph_fo.Agreement.{satellite_validated}
use p2_ai_knowledge_graph_fo.Tests.Data.{
  system, settings, one_edge, rows, edge_rows, row, one_edge-Mirrors,
}

split_node_id-node_id_example :
    split_node_id (codes "ai_system:a:b") ≡ (node_ai_system, codes "a:b")
unfolding node_id contains list_beq
split_node_id-node_id_example =
    split_node_id-node_id node_ai_system (codes "a:b") (codes "ai_system:a:b") refl

derive_obligations-agrees_example :
    (d : Derivation) × (derive_obligations settings one_edge system none ≡ some d)
    × ((k : Text) → Memᴰ k d.derived_obligations ↔ Derived one_edge 6 system node_obligation k)
    × ((k : Text) → Memᴰ k d.derived_controls ↔ Derived one_edge 6 system node_control_type k)
derive_obligations-agrees_example = derive_obligations-agrees settings one_edge system none

graph_path-exact_example :
    (d : Derivation) × (derive_obligations settings one_edge system none ≡ some d)
    × Distinct d.graph_path
    × ((p : List Text) → Memᴰ p d.graph_path ↔ TerminalPath one_edge 6 system p)
graph_path-exact_example = graph_path-exact settings one_edge system none

incomplete_coverage-exact_example :
    (d : Derivation) × (derive_obligations settings one_edge system none ≡ some d)
    × ((e : Text × Text)
        → Memᴰ e d.incomplete_coverage ↔ ((r : Text) × Gap one_edge 6 system r × (e ≡ gap_entry r)))
incomplete_coverage-exact_example = incomplete_coverage-exact settings one_edge system none

-- The system's row is neither an obligation nor a control type.
system-NotTerminal : NotTerminal (node_lookup rows (row system))
unfolding node_lookup list_beq
system-NotTerminal = (λ e. cc e, λ e. cc e)

system_present : one_edge.has_node system ≡ true
unfolding list_beq
system_present = refl

satellite_validated_example :
    (d : Derivation) × (r : ReferenceDerived) × (derive_obligations settings one_edge system none
      ≡ some d)
    × (derive_obligations_pure_python rows edge_rows (row system) 6 ≡ some r)
    × (compare_derivation
          (record {
            derived_obligations = d.derived_obligations;
            derived_controls = d.derived_controls;
          })
          (record {
            derived_obligations = r.derived_obligations;
            derived_controls = r.derived_controls;
          })
        ≡ true)
satellite_validated_example =
    satellite_validated settings one_edge rows edge_rows row system none one_edge-Mirrors
      system_present system-NotTerminal (omega arith)
