-- ===== src/Export.antt =====
-- core-side-patch/data_providers.py and routers/patent_exports_p2.py: the three exports, and the two
-- sources of their data.
pub mod Changed
use p2_ai_knowledge_graph_fo.Base.{
  ℕ, Bool, true, false, not, ◌&&◌, List, [], ◌∷◌, map, Option, none, some, Text, codes, Dict,
  length, keep_if, contains, leb, if◌then◌else◌, ◌==◌, list_eq, nat_eq,
}
use p2_ai_knowledge_graph_fo.GraphBuilder.{RegulationItem, JurisdictionItem, ObligationItem}
use p2_ai_knowledge_graph_fo.Outbox.{ChangeEvent}
use p2_ai_knowledge_graph_fo.Access.{
  Access, unauthorized, forbidden, granted, require_patent_export_scope,
}

pub record ExportedSystem : Type 0 where
  pub id : Text
  pub name : Text
  pub geographic_scope : List Text
  pub data_categories : List Text
  pub risk_tier : Text
  pub deployment_status : Text

pub record RegulationsCatalog : Type 0 where
  pub items : List RegulationItem
  pub risk_tier_obligations : Dict Text (List ObligationItem)

-- The abstract class, by the type of its systems. `changed_since` is a time.
pub record ExportDataSource (S : Type 0) : Type 0 where
  pub list_ai_systems : ℕ → Option ℕ → List S
  pub list_regulations_catalog : ℕ → Option ℕ → RegulationsCatalog
  pub list_jurisdictions : ℕ → Option ℕ → List JurisdictionItem

-- A row of the placeholder table of systems.
pub record AssumedAiSystem : Type 0 where
  pub org_id : ℕ
  pub system : ExportedSystem

-- The subquery of the ids that changed.
unfoldable pub changed_ids : List ChangeEvent → ℕ → ℕ → List Text
changed_ids events org_id changed_since =
    map (λ e. e.ai_system_id)
      (keep_if (λ e. (e.org_id == org_id) && leb changed_since e.changed_at) events)

unfoldable pub is_changed : List ChangeEvent → ℕ → Option ℕ → Text → Bool
is_changed events org_id none id = true
is_changed events org_id (some changed_since) id =
    contains id (changed_ids events org_id changed_since)

unfoldable pub sqlalchemy_source :
    List AssumedAiSystem
    → List ChangeEvent
    → RegulationsCatalog
    → List JurisdictionItem
    → ExportDataSource ExportedSystem
sqlalchemy_source systems events regulations_catalog jurisdictions = record {
  list_ai_systems = λ org_id changed_since.
      map (λ row. row.system)
        (keep_if
          (λ row. (row.org_id == org_id) && is_changed events org_id changed_since row.system.id)
          systems);
  list_regulations_catalog = λ org_id changed_since. regulations_catalog;
  list_jurisdictions = λ org_id changed_since. jurisdictions;
}

-- An item of the fixture: its keys, and the time under `_changed_at`.
pub record FixtureItem : Type 0 where
  pub fields : Dict Text Text
  pub changed_at : Option ℕ

unfoldable pub passes_changed_since : Option ℕ → Option ℕ → Bool
passes_changed_since changed_at none = true
passes_changed_since none (some changed_since) = true
passes_changed_since (some changed_at) (some changed_since) = leb changed_since changed_at

unfoldable pub is_private : Text → Bool
is_private [] = false
is_private (c ∷ s) = c == b'_'

unfoldable pub fixture_backed_source :
    List FixtureItem
    → RegulationsCatalog
    → List JurisdictionItem
    → ExportDataSource (Dict Text Text)
fixture_backed_source ai_systems regulations_catalog jurisdictions = record {
  list_ai_systems = λ org_id changed_since.
      map (λ item. keep_if (λ f. not (is_private f.0)) item.fields)
        (keep_if (λ item. passes_changed_since item.changed_at changed_since) ai_systems);
  list_regulations_catalog = λ org_id changed_since. regulations_catalog;
  list_jurisdictions = λ org_id changed_since. jurisdictions;
}

-- `items`, and `meta` with the count and `changed_since`
pub record Envelope (A : Type 0) : Type 0 where
  pub items : List A
  pub count : ℕ
  pub changed_since : Option ℕ

unfoldable pub envelope : {A : Type 0} → List A → Option ℕ → Envelope A
envelope items changed_since = record {
  items = items;
  count = length items;
  changed_since = changed_since;
}

-- 401, 403, or the body.
pub data Response (A : Type 0) : Type 0 where
  denied_401 : Response A
  denied_403 : Response A
  body : A → Response A

unfoldable pub behind : {A : Type 0} → Access → A → Response A
behind unauthorized a = denied_401
behind forbidden a = denied_403
behind (granted token) a = body a

module _ {S : Type 0} (validate_scoped_api_key : Text → Text → Bool)
    (data_source : ExportDataSource S) (authorization : Option Text) (org_id : ℕ)
    (changed_since : Option ℕ) where
  unfoldable pub get_ai_systems : Response (Envelope S)
  get_ai_systems =
      behind (require_patent_export_scope validate_scoped_api_key authorization)
        (envelope (data_source.list_ai_systems org_id changed_since) changed_since)

  unfoldable pub get_regulations_catalog :
      Response (Envelope RegulationItem × Dict Text (List ObligationItem))
  get_regulations_catalog =
      let catalog = data_source.list_regulations_catalog org_id changed_since in
      behind (require_patent_export_scope validate_scoped_api_key authorization)
        (envelope catalog.items changed_since, catalog.risk_tier_obligations)

  unfoldable pub get_jurisdictions : Response (Envelope JurisdictionItem)
  get_jurisdictions =
      behind (require_patent_export_scope validate_scoped_api_key authorization)
        (envelope (data_source.list_jurisdictions org_id changed_since) changed_since)
