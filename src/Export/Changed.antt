-- ===== src/Export/Changed.antt =====
-- core-side-patch/routers/patent_exports_p2.py over SQLAlchemyExportDataSource: who is refused, and
-- which systems are exported.
use p2_ai_knowledge_graph_fo.Base.{
  ℕ, ◌≤◌, ◌≡◌, refl, ◌⊎◌, inl, inr, ◌↔◌, Bool, true, false, ◌&&◌, List, map, Option, none, some,
  Text, Memᴰ, mem-map, keep_if, mem-keep_if, contains_iff, leb, ◌==◌, eq_iff, list_eq, nat_eq,
  arith, Bool-cases, Option-cases,
}
use p2_ai_knowledge_graph_fo.GraphBuilder.{JurisdictionItem}
use p2_ai_knowledge_graph_fo.Outbox.{ChangeEvent}
use p2_ai_knowledge_graph_fo.Access.{
  extract_bearer_token, require_patent_export_scope, access_with, patent_export_p2_read,
}
use p2_ai_knowledge_graph_fo.Export.{
  ExportedSystem, RegulationsCatalog, AssumedAiSystem, Envelope, Response, denied_401, denied_403,
  body, sqlalchemy_source, changed_ids, is_changed, envelope, behind, get_ai_systems,
}

-- Some event of the organisation names the system, from the time on; without a time every one counts.
abbrev pub Changed : List ChangeEvent → ℕ → Option ℕ → Text → Type 0
Changed events org_id none id = Unit
Changed events org_id (some changed_since) id =
    (e : ChangeEvent) × Memᴰ e events
    × (e.org_id ≡ org_id)
    × (changed_since ≤ e.changed_at)
    × (id ≡ e.ai_system_id)

is_changed_iff :
    (events : List ChangeEvent) (org_id : ℕ) (changed_since : Option ℕ) (id : Text)
    → (is_changed events org_id changed_since id ≡ true) ↔ Changed events org_id changed_since id
unfolding is_changed changed_ids
is_changed_iff events org_id none id = (λ h. tt, λ h. refl)
is_changed_iff events org_id (some changed_since) id =
    let since = λ (e : ChangeEvent). (e.org_id == org_id) && leb changed_since e.changed_at in
    let ids = map (λ (e : ChangeEvent). e.ai_system_id) (keep_if since events) in
    let (to, from) = mem-map (λ (e : ChangeEvent). e.ai_system_id) id (keep_if since events) in
    (
      λ h.
          let (e, kept, eq) = to ((contains_iff id ids).0 h) in
          let (in_events, passes) = (mem-keep_if since e events).0 kept in
          (
            e,
            in_events,
            ground (arith, passes, eq_iff e.org_id org_id),
            ground (arith, passes, eq_iff e.org_id org_id),
            eq,
          ),
      λ (e, in_events, of_org, late, eq). (contains_iff id ids).1 (
          from (
            e,
            (mem-keep_if since e events).1
                (in_events, ground (arith, of_org, late, eq_iff e.org_id org_id)),
            eq,
          )),
    )

module _ (validate_scoped_api_key : Text → Text → Bool) (systems : List AssumedAiSystem)
    (events : List ChangeEvent) (catalog : RegulationsCatalog) (places : List JurisdictionItem)
    (authorization : Option Text) (org_id : ℕ) (changed_since : Option ℕ) where
  abbrev pub exported : Response (Envelope ExportedSystem)
  exported =
      get_ai_systems validate_scoped_api_key (sqlalchemy_source systems events catalog places)
        authorization org_id changed_since

  abbrev pub IsExported : ExportedSystem → Type 0
  IsExported s =
      (row : AssumedAiSystem) × Memᴰ row systems
      × (row.org_id ≡ org_id)
      × Changed events org_id changed_since row.system.id
      × (s ≡ row.system)

-- Without a bearer token the systems' export is answered with 401; with a token that core's validator
-- does not grant the permission, with 403; and with any other, by exactly the systems of the
-- organisation, of these only those that one of its change events names from `changed_since` on,
-- if that is given.
pub get_ai_systems-outcome :
    (validate_scoped_api_key : Text → Text → Bool) (systems : List AssumedAiSystem)
    (events : List ChangeEvent) (catalog : RegulationsCatalog) (places : List JurisdictionItem)
    (authorization : Option Text) (org_id : ℕ) (changed_since : Option ℕ)
    → ((extract_bearer_token authorization ≡ none)
        × (exported validate_scoped_api_key systems events catalog places authorization org_id
              changed_since
            ≡ denied_401))
      ⊎ ((token : Text) × (extract_bearer_token authorization ≡ some token)
          × (validate_scoped_api_key token patent_export_p2_read ≡ false)
          × (exported validate_scoped_api_key systems events catalog places authorization org_id
                changed_since
              ≡ denied_403))
      ⊎ ((token : Text) × (shown : Envelope ExportedSystem) × (extract_bearer_token authorization
            ≡ some token)
          × (validate_scoped_api_key token patent_export_p2_read ≡ true)
          × (exported validate_scoped_api_key systems events catalog places authorization org_id
                changed_since
              ≡ body shown)
          × ((s : ExportedSystem)
              → Memᴰ s shown.items
                ↔ IsExported validate_scoped_api_key systems events catalog places authorization
                    org_id changed_since s))
unfolding get_ai_systems behind envelope require_patent_export_scope access_with sqlalchemy_source
get_ai_systems-outcome validate systems events catalog places authorization org_id changed_since =
    elim (Option-cases (extract_bearer_token authorization)) [
      | inl missing ↦ inl (missing, rw missing refl)
      | inr (token, there) ↦ elim (Bool-cases (validate token patent_export_p2_read)) [
        | inr refused ↦ inr (inl (token, there, refused, rw (there, refused) refl))
        | inl allowed ↦
            let kept = λ (row : AssumedAiSystem).
              (row.org_id == org_id) && is_changed events org_id changed_since row.system.id in
            inr (
              inr (
                token,
                envelope (map (λ row. row.system) (keep_if kept systems)) changed_since,
                there,
                allowed,
                rw (there, allowed) refl,
                λ s.
                    let (to, from) =
                      mem-map (λ (row : AssumedAiSystem). row.system) s (keep_if kept systems) in
                    (
                      λ m.
                          let (row, in_kept, eq) = to m in
                          let (in_systems, passes) = (mem-keep_if kept row systems).0 in_kept in
                          (
                            row,
                            in_systems,
                            ground (arith, passes, eq_iff row.org_id org_id),
                            (is_changed_iff events org_id changed_since row.system.id).0
                                (ground (arith, passes, eq_iff row.org_id org_id)),
                            eq,
                          ),
                      λ (row, in_systems, of_org, changed, eq). from (
                        row,
                        (mem-keep_if kept row systems).1 (
                          in_systems,
                          ground (
                            arith,
                            of_org,
                            (is_changed_iff events org_id changed_since row.system.id).1 changed,
                            eq_iff row.org_id org_id,
                          ),
                        ),
                        eq,
                      ),
                    ),
              ))
      ]
    ]
