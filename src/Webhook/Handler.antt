-- ===== src/Webhook/Handler.antt =====
-- src/p2_satellite/event_listener.py, `ai_system_changed`: when a re-derivation is scheduled.
use p2_ai_knowledge_graph_fo.Base.{
  ℕ, ◌≡◌, refl, inl, inr, true, Option, none, some, Text, Bool-cases, ◌↔◌,
}
use p2_ai_knowledge_graph_fo.Webhook.{
  Settings, Cache, client_ip_allowed, verify_signature, Answer, accepted, answer_event,
  ai_system_changed,
}

-- The job is scheduled for a system exactly when the client is allowed, the signature verifies and
-- the body names the system and the field; a client that is not allowed leaves the cache alone.
pub record ScheduledWhen (settings : Settings) (cache : Cache) (now m : ℕ)
    (client_host : Option Text) (raw_body : Text) (header : Option Text) (ai_system_id : Text)
    (changed_field : Option Text) : Type 0 where
  pub allowed : client_ip_allowed settings client_host ≡ true
  pub verified : (verify_signature settings cache now m raw_body header).1 ≡ true
  pub body : settings.model_validate_json raw_body ≡ some (ai_system_id, changed_field)

id_of : Answer → Option (Text × Option Text)
id_of (accepted i f) = some (i, f)
id_of _ = none

answer_event-cases :
    (o : Option (Text × Option Text)) (i : Text) (f : Option Text)
    → answer_event o ≡ accepted i f
    → o ≡ some (i, f)
unfolding answer_event
answer_event-cases none i f h = cc h
answer_event-cases (some (j, g)) i f h = cc h

-- A re-derivation of a system is scheduled exactly when the client is allowed, the signature
-- verifies and the body parses as an event of this system and field.
pub scheduled_iff :
    (settings : Settings) (cache : Cache) (now m : ℕ) (client_host : Option Text) (raw_body : Text)
    (header : Option Text) (ai_system_id : Text) (changed_field : Option Text)
    → ((ai_system_changed settings cache now m client_host raw_body header).1
        ≡ accepted ai_system_id changed_field)
      ↔ ScheduledWhen settings cache now m client_host raw_body header ai_system_id changed_field
unfolding ai_system_changed answer_event
scheduled_iff settings cache now m client_host raw_body header i f =
    elim (Bool-cases (client_ip_allowed settings client_host)) [
      | inr denies ↦ rw denies (λ h. cc h, λ w. cc (denies, w.allowed))
      | inl allows ↦ elim (Bool-cases (verify_signature settings cache now m raw_body header).1) [
        | inr bad ↦ rw (allows, bad) (λ h. cc h, λ w. cc (bad, w.verified))
        | inl good ↦
            rw (allows, good)
              (
                λ h. record {
                  allowed = allows;
                  verified = good;
                  body = answer_event-cases _ i f h;
                },
                λ w. rw w.body refl,
              )
      ]
    ]
