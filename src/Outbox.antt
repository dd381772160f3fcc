-- ===== src/Outbox.antt =====
-- core-side-patch/change_event_outbox.py: the rows of governance_graph_change_events. The clock is an
-- argument.
use p2_ai_knowledge_graph_fo.Base.{
  ℕ, List, [], ◌∷◌, ◌++◌, Option, none, some, Text, codes, contains, if◌then◌else◌, list_eq, nat_eq,
}

abbrev pub watched_ai_system_fields : List Text
watched_ai_system_fields =
    codes "deployment_jurisdiction" ∷ codes "data_categories" ∷ codes "risk_tier" ∷ []

abbrev pub manual_trigger_reason : Text
manual_trigger_reason = codes "manual_sync"

pub record ChangeEvent : Type 0 where
  pub org_id : ℕ
  pub ai_system_id : Text
  pub changed_field : Text
  pub changed_at : ℕ
  pub consumed_at : Option ℕ

unfoldable pub write_change_event : List ChangeEvent → ℕ → ℕ → Text → Text → List ChangeEvent
write_change_event events now org_id ai_system_id changed_field =
    events
    ++ record {
      org_id = org_id;
      ai_system_id = ai_system_id;
      changed_field = changed_field;
      changed_at = now;
      consumed_at = none;
    }
      ∷ []

unfoldable pub write_for_org :
    List ChangeEvent → ℕ → Text → Text → Option ℕ → Option (List ChangeEvent)
write_for_org events now ai_system_id changed_field none = none
write_for_org events now ai_system_id changed_field (some org_id) =
    some (write_change_event events now org_id ai_system_id changed_field)

-- `none` is the `ValueError` of a field that is not watched, or of a missing organisation.
unfoldable pub emit_change_event :
    List ChangeEvent → ℕ → Text → Text → Option ℕ → Option (List ChangeEvent)
emit_change_event events now ai_system_id changed_field org_id =
    if contains changed_field watched_ai_system_fields
    then write_for_org events now ai_system_id changed_field org_id
    else none

unfoldable pub emit_manual_change_event : List ChangeEvent → ℕ → ℕ → Text → Text → List ChangeEvent
emit_manual_change_event events now org_id ai_system_id reason =
    write_change_event events now org_id ai_system_id reason
