-- ===== src/Tests/Satellite.antt =====
-- The theorems about src/p2_satellite/graph_builder.py and ingest_client.py, and about the exports of
-- core-side-patch, at concrete inputs.
use mathlib.Core.List.{Permᴰ}
use mathlib.Core.List.Permᴰ
use mathlib.Core.List.Memᴰ
use p2_ai_knowledge_graph_fo.Base.{
  ℕ, suc, ◌≤◌, ◌≡◌, refl, ◌↔◌, ◌⊎◌, true, false, List, [], ◌∷◌, Option, none, some, Text, codes,
  length, Memᴰ, contains, ltb, list_beq, list_eq, nat_eq, arith, if◌then◌else◌,
}
use p2_ai_knowledge_graph_fo.Traversal.{EdgeData, Derivation, edge_is_active}
use p2_ai_knowledge_graph_fo.Retry.{Result, raised, returned, Sent, connect_error, response}
use p2_ai_knowledge_graph_fo.Retry.Requests.{Sends, last, after}
use p2_ai_knowledge_graph_fo.GraphBuilder.{Exports, build_graph, active_edge}
use p2_ai_knowledge_graph_fo.GraphBuilder.Calls.{Exported}
use p2_ai_knowledge_graph_fo.GraphBuilder.Perform.{id_of}
use p2_ai_knowledge_graph_fo.GraphBuilder.Built.{build_graph-exact}
use p2_ai_knowledge_graph_fo.GraphBuilder.Structure.{
  serialize_graph_structure, serialize_graph_structure_stable,
}
use p2_ai_knowledge_graph_fo.GraphBuilder.Fetch.{GetRequest}
use p2_ai_knowledge_graph_fo.GraphBuilder.Fetch.Steps
use p2_ai_knowledge_graph_fo.IngestClient.{
  Settings, IngestError, PostRequest, value_error, derivation_request, trigger_reasons,
  push_derivation,
}
use p2_ai_knowledge_graph_fo.IngestClient.Outcome.{
  IsPassing, ComesTo, push_derivation-ComesTo, push_derivation_recovers,
}
use p2_ai_knowledge_graph_fo.Access.{
  extract_bearer_token, patent_export_p2_read, default_validate_scoped_api_key,
}
use p2_ai_knowledge_graph_fo.Export.{
  ExportedSystem, RegulationsCatalog, AssumedAiSystem, Envelope, denied_401, denied_403, body,
}
use p2_ai_knowledge_graph_fo.Export.Changed.{exported, IsExported, get_ai_systems-outcome}
use p2_ai_knowledge_graph_fo.Tests.Library.{Lists, networkx, tenacity}

abbrev pub exports : Exports
exports = record {
  ai_systems =
      record {
        id = codes "1";
        data_categories = codes "health" ∷ [];
        geographic_scope = codes "EU" ∷ [];
        risk_tier = codes "high";
      }
      ∷ [];
  regulations =
      record {
        key = codes "gdpr";
        triggered_by_data_categories = codes "health" ∷ [];
        requires_obligations =
            record { key = codes "dpia"; needs_controls = codes "log" ∷ [] } ∷ [];
      }
      ∷ [];
  risk_tier_obligations = [];
  jurisdictions = record { key = codes "EU"; regulations = codes "gdpr" ∷ [] } ∷ [];
}

build_graph-exact_example :
    (g : Lists) × (build_graph networkx exports ≡ some g)
    × ((u v : Text) (d : EdgeData)
        → Memᴰ (u, v, d) g.edges ↔ (
            (t : Text) × (a : Text × Text) × (b : Text × Text) × Exported exports t a b
            × (u ≡ id_of a)
            × (v ≡ id_of b)
            × (d ≡ active_edge t)))
build_graph-exact_example = build_graph-exact networkx exports

abbrev needs : Text × Text × EdgeData
needs = (codes "obligation:o", codes "control_type:c", active_edge (codes "obligation_needs"))

abbrev graph : List Text → Lists
graph nodes = record { nodes = nodes; edges = needs ∷ []; attributes = [] }

serialize_graph_structure_stable_example :
    serialize_graph_structure networkx (graph (codes "obligation:o" ∷ codes "control_type:c" ∷ []))
    ≡ serialize_graph_structure networkx
        (graph (codes "control_type:c" ∷ codes "obligation:o" ∷ []))
unfolding edge_is_active
serialize_graph_structure_stable_example =
    serialize_graph_structure_stable networkx
      (graph (codes "obligation:o" ∷ codes "control_type:c" ∷ []))
      (graph (codes "control_type:c" ∷ codes "obligation:o" ∷ [])) (Permᴰ.swap refl refl)
      (Permᴰ.refl (needs ∷ []))
      (λ e m. (codes "obligation_needs", rw (Memᴰ.eq_of_singleton m) refl))

-- A server that counts the requests, and cannot be reached at first.
abbrev get : GetRequest → ℕ → ℕ × Sent Text
get request w = (suc w, if ltb w 1 then connect_error else response 200 (codes "{}"))

abbrev read : Text → Text → Text → Option Exports
read a r j = if ltb (length a) 3 then some exports else none

abbrev pub settings : Settings
settings = record {
  core_base_url = codes "http://core";
  core_ingest_api_key = codes "key";
  sha256_of_derivation = λ id obligations controls version. id;
  sha256_of_structure = λ nodes edges. [];
}

abbrev derivation : Derivation
derivation = record {
  ai_system_id = codes "1";
  derived_obligations = codes "o" ∷ [];
  derived_controls = [];
  graph_path = [];
  methodology_version = codes "v";
  incomplete_coverage = [];
}

abbrev post : PostRequest → ℕ → ℕ × Sent Text
post request w = (suc w, if ltb w 1 then connect_error else response 200 (codes "{}"))

abbrev request : PostRequest
request = derivation_request settings (codes "event") derivation

push_derivation-ComesTo_example :
    ((contains (codes "event") trigger_reasons ≡ false)
      × (push_derivation settings post tenacity derivation (codes "event") 0
          ≡ (0, raised value_error)))
    ⊎ ((contains (codes "event") trigger_reasons ≡ true)
        × ((k w : ℕ) × (s : Sent Text) × (o : Result (IngestError Text) Text) × Sends post
              (λ v. v)
              IsPassing
              request
              k
              0
              w
              s
            × (k ≤ 3)
            × ((¬ IsPassing s) ⊎ (k ≡ 3))
            × ComesTo s o
            × (push_derivation settings post tenacity derivation (codes "event") 0 ≡ (w, o))))
push_derivation-ComesTo_example =
    push_derivation-ComesTo settings post tenacity derivation (codes "event") 0

known : contains (codes "event") trigger_reasons ≡ true
unfolding contains list_beq
known = refl

second_try : Sends post (λ v. v) IsPassing request 2 0 2 (response 200 (codes "{}"))
second_try = after tt last

push_derivation_recovers_example :
    push_derivation settings post tenacity derivation (codes "event") 0 ≡ (2, returned (codes "{}"))
push_derivation_recovers_example =
    push_derivation_recovers settings post tenacity derivation (codes "event") 0 2 200 (codes "{}")
      2 known second_try (omega arith) (omega arith)

abbrev catalog : RegulationsCatalog
catalog = record { items = []; risk_tier_obligations = [] }

abbrev systems : List AssumedAiSystem
systems =
    record {
      org_id = 7;
      system = record {
        id = codes "1";
        name = codes "n";
        geographic_scope = [];
        data_categories = [];
        risk_tier = codes "high";
        deployment_status = codes "live";
      };
    }
    ∷ []

abbrev header : Option Text
header = some (codes "Bearer dev-export-key")

get_ai_systems-outcome_example :
    ((extract_bearer_token header ≡ none)
      × (exported default_validate_scoped_api_key systems [] catalog [] header 7 none ≡ denied_401))
    ⊎ ((token : Text) × (extract_bearer_token header ≡ some token)
        × (default_validate_scoped_api_key token patent_export_p2_read ≡ false)
        × (exported default_validate_scoped_api_key systems [] catalog [] header 7 none
            ≡ denied_403))
    ⊎ ((token : Text) × (shown : Envelope ExportedSystem) × (extract_bearer_token header
          ≡ some token)
        × (default_validate_scoped_api_key token patent_export_p2_read ≡ true)
        × (exported default_validate_scoped_api_key systems [] catalog [] header 7 none
            ≡ body shown)
        × ((s : ExportedSystem)
            → Memᴰ s shown.items
              ↔ IsExported default_validate_scoped_api_key systems [] catalog [] header 7 none s))
get_ai_systems-outcome_example =
    get_ai_systems-outcome default_validate_scoped_api_key systems [] catalog [] header 7 none
