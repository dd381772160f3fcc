-- ===== src/KnowledgeRouter/Derive.antt =====
-- core-side-patch/routers/patent_knowledge_graph_p2.py: what derive_obligations_on_demand and
-- sync_ai_system do with a system that is there and with one that is not.
use p2_ai_knowledge_graph_fo.Base.{
  ℕ, ◌≡◌, refl, ◌⊎◌, inl, inr, Bool, true, false, [], ◌∷◌, ◌++◌, Option, none, some, Text, codes,
  decimal, length, Bool-cases, suc, length-snoc,
}
use p2_ai_knowledge_graph_fo.Tables.{
  Session, TraversalResult, resolve_ai_system_node_id, upsert_ai_system_obligation_links,
}
use p2_ai_knowledge_graph_fo.Reference.{ReferenceDerived, collected, derive_obligations_pure_python}
use p2_ai_knowledge_graph_fo.Reference.Loop.{walk_returns}
use p2_ai_knowledge_graph_fo.Ingest.{
  derive_obligations_reference, resolve_max_traversal_depth, node_entries, edge_entries,
}
use p2_ai_knowledge_graph_fo.RateLimiter.{
  FixedWindowRateLimiter, allow, status_of, require_on_demand_derive_rate_limit,
}
use p2_ai_knowledge_graph_fo.Outbox.{
  ChangeEvent, manual_trigger_reason, emit_manual_change_event, write_change_event,
}
use p2_ai_knowledge_graph_fo.GraphQuery.{
  derive_and_persist_traversal, derive_from, persist_traversal, self_derived,
}
use p2_ai_knowledge_graph_fo.KnowledgeRouter.{
  Governance, AuditEntry, ai_system_not_found, rate_limited, derivation, sync_queued,
  derive_obligations_on_demand, on_demand, derive_for_node, derive_if_allowed, audit_derivation,
  write_audit_log, sync_ai_system, sync_node, emit_for, of_system,
}

pub derive_obligations_reference-returns :
    (session : Session) (node_id bound : ℕ)
    → (r : ReferenceDerived) × (derive_obligations_reference session node_id bound ≡ some r)
unfolding derive_obligations_reference derive_obligations_pure_python
derive_obligations_reference-returns session node_id bound =
    let (t, ends) = walk_returns (node_entries session) (edge_entries session) bound node_id in
    (collected t, rw ends refl)

-- The organisation's budget after it was asked, and whether it had room.
abbrev pub charge : Governance → ℕ → ℕ → FixedWindowRateLimiter × Bool
charge g org_id now = allow g.limiter (codes "org:" ++ decimal org_id) now

-- One result and one entry of the audit log are new; the result holds what core derived.
pub record IsRecorded (g g' : Governance) (org_id user_id : ℕ) (ai_system_id : Text) (id : ℕ)
    (r : ReferenceDerived) : Type 0 where
  pub result : TraversalResult
  pub entry : AuditEntry
  pub stored : g'.session.results ≡ g.session.results ++ result ∷ []
  pub obligations : result.derived_obligations ≡ r.derived_obligations
  pub controls : result.derived_controls ≡ r.derived_controls
  pub of_system : (result.org_id ≡ org_id) × (result.ai_system_id ≡ ai_system_id)
  pub named : result.id ≡ id
  pub status : result.validation_status ≡ self_derived
  pub logged : g'.audit_log ≡ g.audit_log ++ entry ∷ []
  pub by_user : (entry.org_id ≡ org_id) × (entry.actor_id ≡ user_id)
  pub no_event : g'.events ≡ g.events

module _ (g : Governance) (now org_id user_id : ℕ) (ai_system_id : Text) where
  derive_unknown :
      resolve_ai_system_node_id g.session org_id ai_system_id ≡ some none
      → derive_obligations_on_demand g now org_id user_id ai_system_id
        ≡ some (g, ai_system_not_found ai_system_id)
  unfolding derive_obligations_on_demand derive_for_node
  derive_unknown h = rw h refl

  derive_refused :
      (node_id : ℕ)
      → resolve_ai_system_node_id g.session org_id ai_system_id ≡ some (some node_id)
      → (charge g org_id now).1 ≡ false
      → derive_obligations_on_demand g now org_id user_id ai_system_id
        ≡ some (record g { limiter = (charge g org_id now).0 }, rate_limited 429)
  unfolding derive_obligations_on_demand derive_for_node derive_if_allowed status_of
      require_on_demand_derive_rate_limit
  derive_refused node_id h full = rw (h, full) refl

  derive-IsRecorded :
      (node_id : ℕ)
      → resolve_ai_system_node_id g.session org_id ai_system_id ≡ some (some node_id)
      → (charge g org_id now).1 ≡ true
      → (r : ReferenceDerived) × (g' : Governance) × (id : ℕ) × (derive_obligations_reference
            g.session node_id resolve_max_traversal_depth
          ≡ some r)
        × (derive_obligations_on_demand g now org_id user_id ai_system_id
            ≡ some (g', derivation id r))
        × (g'.limiter ≡ (charge g org_id now).0)
        × IsRecorded g g' org_id user_id ai_system_id id r
  unfolding derive_obligations_on_demand derive_for_node derive_if_allowed status_of
      require_on_demand_derive_rate_limit derive_and_persist_traversal derive_from persist_traversal
      audit_derivation write_audit_log upsert_ai_system_obligation_links
  derive-IsRecorded node_id h room =
      let (r, ends) =
        derive_obligations_reference-returns g.session node_id resolve_max_traversal_depth in
      (
        r,
        (audit_derivation (record g { limiter = (charge g org_id now).0 }) org_id user_id
            ai_system_id (persist_traversal g.session org_id ai_system_id on_demand true r)).0,
        g.session.next_id,
        ends,
        rw (h, room, h, ends) refl,
        refl,
        record {
          result = _;
          entry = _;
          stored = refl;
          obligations = refl;
          controls = refl;
          of_system = (refl, refl);
          named = refl;
          status = refl;
          logged = refl;
          by_user = (refl, refl);
          no_event = refl;
        },
      )

-- Let the query for the system return. If the system is unknown, the answer is 404, and nothing
-- changes, the organisation's budget included. If it is known and the budget is used up, the answer
-- is 429, and only the limiter changes. Otherwise core's traversal returns, the answer holds what it
-- derived, and one result with this and one entry of the audit log are new, and no change event.
pub derive_obligations_on_demand-outcome :
    (g : Governance) (now org_id user_id : ℕ) (ai_system_id : Text) (node : Option ℕ)
    → resolve_ai_system_node_id g.session org_id ai_system_id ≡ some node
    → ((node ≡ none)
        × (derive_obligations_on_demand g now org_id user_id ai_system_id
            ≡ some (g, ai_system_not_found ai_system_id)))
      ⊎ ((node_id : ℕ) × (node ≡ some node_id)
          × ((charge g org_id now).1 ≡ false)
          × (derive_obligations_on_demand g now org_id user_id ai_system_id
              ≡ some (record g { limiter = (charge g org_id now).0 }, rate_limited 429)))
      ⊎ ((node_id : ℕ) × (node ≡ some node_id)
          × ((charge g org_id now).1 ≡ true)
          × ((r : ReferenceDerived) × (g' : Governance) × (id : ℕ) × (derive_obligations_reference
                  g.session node_id resolve_max_traversal_depth
                ≡ some r)
              × (derive_obligations_on_demand g now org_id user_id ai_system_id
                  ≡ some (g', derivation id r))
              × (g'.limiter ≡ (charge g org_id now).0)
              × IsRecorded g g' org_id user_id ai_system_id id r))
derive_obligations_on_demand-outcome g now org_id user_id ai_system_id none h =
    inl (refl, derive_unknown g now org_id user_id ai_system_id h)
derive_obligations_on_demand-outcome g now org_id user_id ai_system_id (some node_id) h =
    elim (Bool-cases (charge g org_id now).1) [
      | inl room ↦ inr (
          inr (
            node_id,
            refl,
            room,
            derive-IsRecorded g now org_id user_id ai_system_id node_id h room,
          ))
      | inr full ↦ inr (
          inl
            (node_id, refl, full, derive_refused g now org_id user_id ai_system_id node_id h full))
    ]

-- The row that a sync writes.
abbrev pub manual_event : ℕ → ℕ → Text → ChangeEvent
manual_event now org_id ai_system_id = record {
  org_id = org_id;
  ai_system_id = ai_system_id;
  changed_field = manual_trigger_reason;
  changed_at = now;
  consumed_at = none;
}

-- Let the query for the system return. A sync of an unknown system is answered with 404 and changes
-- nothing. A sync of a known system writes one change event, which is not consumed, and one entry of
-- the audit log, answers with the event's id, and leaves the database and the limiter as they are.
pub sync_ai_system-outcome :
    (g : Governance) (now org_id user_id : ℕ) (ai_system_id : Text) (node : Option ℕ)
    → resolve_ai_system_node_id g.session org_id ai_system_id ≡ some node
    → ((node ≡ none)
        × (sync_ai_system g now org_id user_id ai_system_id
            ≡ some (g, ai_system_not_found ai_system_id)))
      ⊎ ((node_id : ℕ) × (node ≡ some node_id)
          × (g' : Governance) × (entry : AuditEntry) × (sync_ai_system g now org_id user_id
                ai_system_id
              ≡ some (g', sync_queued ai_system_id (suc (length g.events))))
          × (g'.events ≡ g.events ++ manual_event now org_id ai_system_id ∷ [])
          × (g'.audit_log ≡ g.audit_log ++ entry ∷ [])
          × (g'.session ≡ g.session)
          × (g'.limiter ≡ g.limiter))
unfolding sync_ai_system sync_node write_audit_log emit_for emit_manual_change_event
    write_change_event
sync_ai_system-outcome g now org_id user_id ai_system_id none h = inl (refl, rw h refl)
sync_ai_system-outcome g now org_id user_id ai_system_id (some node_id) h = inr (
  node_id,
  refl,
  (sync_node g now org_id user_id ai_system_id (some node_id)).0,
  record {
    org_id = org_id;
    actor_id = user_id;
    event_type = codes "governance_graph.manual_sync_requested";
    payload =
        of_system ai_system_id (length (g.events ++ manual_event now org_id ai_system_id ∷ []));
  },
  rw (h, length-snoc g.events) refl,
  refl,
  refl,
  refl,
  refl,
)
