-- ===== src/Ingest/Routes.antt =====
-- core-side-patch/routers/patent_ingest_p2.py: the route of one derivation behind the rate limit, and
-- the batch route on one derivation.
use p2_ai_knowledge_graph_fo.Base.{
  ℕ, ◌≡◌, refl, ap, ◌⊎◌, inl, inr, List, [], ◌∷◌, Option, none, some, Text, ◌>>=◌, Option-cases,
}
use p2_ai_knowledge_graph_fo.Ingest.{
  DerivationRequest, Core, Answer, process_one_derivation, process_batch, answer_batch,
  post_obligation_derivations_batch,
}
use p2_ai_knowledge_graph_fo.RateLimiter.{
  FixedWindowRateLimiter, require_ingest_rate_limit, require_ingest_rate_limit_n,
}
use p2_ai_knowledge_graph_fo.RateLimiter.Laws.{allow-eq-allow_n}

unfoldable scope_of : Text → Option ℕ → ℕ ⊎ Text
scope_of scoped_key none = inr scoped_key
scope_of scoped_key (some status) = inl status

-- `_rate_limited_ingest_scope`: the status of the `HTTPException`, or the key.
unfoldable rate_limited_ingest_scope :
    FixedWindowRateLimiter → Text → ℕ → FixedWindowRateLimiter × (ℕ ⊎ Text)
rate_limited_ingest_scope limiter scoped_key now =
    let (limiter', status) = require_ingest_rate_limit limiter scoped_key now in
    (limiter', scope_of scoped_key status)

-- The route after its dependencies: a status that the rate limit answers with, or the answer.
unfoldable answer_one : DerivationRequest → ℕ → ℕ → Core → ℕ ⊎ Text → Option (Core × (ℕ ⊎ Answer))
answer_one payload org_id user_id core (inl status) = some (core, inl status)
answer_one payload org_id user_id core (inr scoped_key) = do
  done ← process_one_derivation payload org_id user_id core
  some (done.0, inr done.1)

unfoldable post_obligation_derivation :
    FixedWindowRateLimiter
    → Text
    → ℕ
    → DerivationRequest
    → ℕ
    → ℕ
    → Core
    → FixedWindowRateLimiter × Option (Core × (ℕ ⊎ Answer))
post_obligation_derivation limiter scoped_key now payload org_id user_id core =
    let (limiter', scope) = rate_limited_ingest_scope limiter scoped_key now in
    (limiter', answer_one payload org_id user_id core scope)

-- What the batch route answers when the other route answers so.
unfoldable as_batch : Text → Core × (ℕ ⊎ Answer) → Core × Option (List (Text × Answer))
as_batch ai_system_id (core, inl status) = (core, none)
as_batch ai_system_id (core, inr answer) = (core, some ((ai_system_id, answer) ∷ []))

answer_batch_of_one :
    (scoped_key : Text) (payload : DerivationRequest) (org user : ℕ) (core : Core)
    (status : Option ℕ)
    → answer_batch (payload ∷ []) org user core status ≡ (
        answer_one payload org user core (scope_of scoped_key status) >>= λ done.
        some (as_batch payload.ai_system_id done))
unfolding answer_one answer_batch process_batch as_batch scope_of
answer_batch_of_one scoped_key payload org user core (some status) = refl
answer_batch_of_one scoped_key payload org user core none =
    elim (Option-cases (process_one_derivation payload org user core)) [
      | inl e ↦ rw e refl
      | inr (done, e) ↦ rw e refl
    ]

charge_of_one :
    (limiter : FixedWindowRateLimiter) (scoped_key : Text) (now : ℕ)
    → require_ingest_rate_limit_n limiter scoped_key 1 now
      ≡ require_ingest_rate_limit limiter scoped_key now
unfolding require_ingest_rate_limit require_ingest_rate_limit_n
charge_of_one limiter scoped_key now = rw (allow-eq-allow_n limiter scoped_key now) refl

-- A batch of one charges the key, changes core and answers as the route of one derivation does.
post_batch_of_one :
    (limiter : FixedWindowRateLimiter) (scoped_key : Text) (now : ℕ) (payload : DerivationRequest)
    (org user : ℕ) (core : Core)
    → post_obligation_derivations_batch limiter scoped_key now (payload ∷ []) org user core ≡ (
      (post_obligation_derivation limiter scoped_key now payload org user core).0,
      (post_obligation_derivation limiter scoped_key now payload org user core).1 >>= λ done.
          some (as_batch payload.ai_system_id done),
    )
unfolding post_obligation_derivations_batch post_obligation_derivation rate_limited_ingest_scope
post_batch_of_one limiter scoped_key now payload org user core =
    rw (charge_of_one limiter scoped_key now) (
      ap (λ answer. ((require_ingest_rate_limit limiter scoped_key now).0, answer))
        (answer_batch_of_one scoped_key payload org user core
          (require_ingest_rate_limit limiter scoped_key now).1))
