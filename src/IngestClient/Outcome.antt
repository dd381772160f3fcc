-- ===== src/IngestClient/Outcome.antt =====
-- src/p2_satellite/ingest_client.py: which requests a push sends, and what it comes to.
use p2_ai_knowledge_graph_fo.Base.{
  ℕ, ◌≤◌, ◌<◌, ◌≡◌, refl, ap, ◌∙◌, ◌↔◌, ◌⊎◌, inl, inr, true, false, Text, contains, list_eq, nat_eq,
  Bool-cases, arith,
}
use p2_ai_knowledge_graph_fo.Traversal.{Derivation}
use p2_ai_knowledge_graph_fo.Retry.{
  Result, raised, returned, is_retryable, Sent, connect_error, timed_out, other_error, response,
  Tenacity,
}
use p2_ai_knowledge_graph_fo.Retry.Requests.{Sends, retry-Sends, retry-settled}
use p2_ai_knowledge_graph_fo.IngestClient.{
  Settings, IngestError, transient_ingest_error, permanent_ingest_error, value_error, other,
  PostRequest, is_transient, answered, derivation_request, trigger_reasons, post_once,
  post_with_retry, push_derivation,
}

-- What is worth another try: no connection, no answer in time, or an error of the server.
abbrev pub IsPassing : {B : Type 0} → Sent B → Type 0
IsPassing connect_error = Unit
IsPassing timed_out = Unit
IsPassing other_error = ⊥
IsPassing (response status body) = 500 ≤ status

-- What a push comes to when its last request meets with this.
abbrev pub ComesTo : {B : Type 0} → Sent B → Result (IngestError B) B → Type 0
ComesTo connect_error o = o ≡ raised transient_ingest_error
ComesTo timed_out o = o ≡ raised transient_ingest_error
ComesTo other_error o = o ≡ raised other
ComesTo (response status body) o =
    ((status < 400) × (o ≡ returned body))
    ⊎ ((400 ≤ status) × (status < 500) × (o ≡ raised (permanent_ingest_error status body)))
    ⊎ ((500 ≤ status) × (o ≡ raised transient_ingest_error))

answered-ComesTo : {B : Type 0} (s : Sent B) → ComesTo s (answered s)
unfolding answered
answered-ComesTo connect_error = refl
answered-ComesTo timed_out = refl
answered-ComesTo other_error = refl
answered-ComesTo (response status body) = ground arith

transient_iff :
    {B : Type 0} (s : Sent B) → (is_retryable is_transient (answered s) ≡ true) ↔ IsPassing s
unfolding answered is_retryable is_transient
transient_iff connect_error = (λ _. tt, λ _. refl)
transient_iff timed_out = (λ _. tt, λ _. refl)
transient_iff other_error = (λ e. cc e, λ e. absurd e)
transient_iff (response status body) = ground arith

returned_below :
    {B : Type 0} (status : ℕ) (b : B) → status < 400 → answered (response status b) ≡ returned b
unfolding answered
returned_below status b fine = ground (arith, fine)

-- A push for no trigger reason that core knows sends nothing: it raises a ValueError and leaves the
-- world as it is. Any other push sends the request of the derivation one to three times; every time
-- but the last met with no connection, no answer in time or a status of 500 or more, and so did the
-- last only if it is the third. A last status below 400 returns the body, one of 400 to 499 raises
-- a permanent error with the status and the body, and the rest raises a transient error, or another one.
pub push_derivation-ComesTo :
    {W B : Type 0} (settings : Settings) (post : PostRequest → W → W × Sent B)
    (t : Tenacity W (IngestError B) B) (d : Derivation) (trigger_reason : Text) (w : W)
    → ((contains trigger_reason trigger_reasons ≡ false)
        × (push_derivation settings post t d trigger_reason w ≡ (w, raised value_error)))
      ⊎ ((contains trigger_reason trigger_reasons ≡ true)
          × ((k : ℕ) × (w' : W) × (s : Sent B) × (o : Result (IngestError B) B) × Sends post t.wait
                IsPassing
                (derivation_request settings trigger_reason d)
                k
                w
                w'
                s
              × (k ≤ 3)
              × ((¬ IsPassing s) ⊎ (k ≡ 3))
              × ComesTo s o
              × (push_derivation settings post t d trigger_reason w ≡ (w', o))))
unfolding push_derivation post_with_retry post_once
push_derivation-ComesTo settings post t d trigger_reason w =
    elim (Bool-cases (contains trigger_reason trigger_reasons)) [
      | inr unknown ↦ inl (unknown, rw unknown refl)
      | inl known ↦
          let (k, w', s, sends, e, le, ends) =
            retry-Sends t post answered is_transient IsPassing transient_iff
              (derivation_request settings trigger_reason d) 2 w in
          inr (known, (k, w', s, answered s, sends, le, ends, answered-ComesTo s, rw known e))
    ]

-- Let the trigger reason be known, and let one of the first three requests be answered with a status
-- below 400, after requests that met with no connection, no answer in time or a status of 500 or more.
-- Then the push returns this answer.
pub push_derivation_recovers :
    {W B : Type 0} (settings : Settings) (post : PostRequest → W → W × Sent B)
    (t : Tenacity W (IngestError B) B) (d : Derivation) (trigger_reason : Text) (w w' : W)
    (status : ℕ) (b : B) (k : ℕ)
    → contains trigger_reason trigger_reasons ≡ true
    → Sends post t.wait IsPassing
        (derivation_request settings trigger_reason d)
        k
        w
        w'
        (response status b)
    → status < 400
    → k ≤ 3
    → push_derivation settings post t d trigger_reason w ≡ (w', returned b)
unfolding push_derivation post_with_retry post_once
push_derivation_recovers settings post t d trigger_reason w w' status b k known sends fine few =
    rw known (
      retry-settled t post answered is_transient IsPassing transient_iff
        (derivation_request settings trigger_reason d) 3 k w w' (response status b) sends
        (λ h. omega (arith, fine, h)) few
      ∙ ap (λ o. (w', o)) (returned_below status b fine))
