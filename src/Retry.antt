-- ===== src/Retry.antt =====
-- tenacity's `retry` decorator and httpx, as src/p2_satellite uses them: an action is tried until it
-- returns, fails for good, or has been tried often enough, and between two tries there is a wait.
pub mod Attempts
pub mod Requests
use p2_ai_knowledge_graph_fo.Base.{ℕ, suc, Bool, true, false, ◌≡◌}

-- What an action that may raise comes to.
pub data Result (E R : Type 0) : Type 0 where
  raised : E → Result E R
  returned : R → Result E R

-- Whether the action failed with an error that is worth another try.
unfoldable pub is_retryable : {E R : Type 0} → (E → Bool) → Result E R → Bool
is_retryable retry_if (raised e) = retry_if e
is_retryable retry_if (returned r) = false

-- `@retry(retry=retry_if_exception(retry_if), stop=stop_after_attempt(n), wait=…, reraise=True)`, on
-- actions that change a world `W`, the other side of the connection and the clock. The laws are
-- what tenacity documents.
pub record Tenacity (W E R : Type 0) : Type 0 where
  pub retry : (E → Bool) → ℕ → (W → W × Result E R) → W → W × Result E R
  pub wait : W → W
  -- An outcome that is not to be retried ends the call.
  pub settles :
      (retry_if : E → Bool) (n : ℕ) (action : W → W × Result E R) (w : W)
      → is_retryable retry_if (action w).1 ≡ false
      → retry retry_if (suc n) action w ≡ action w
  -- So does the outcome of the last try; with `reraise` its error is raised.
  pub gives_up :
      (retry_if : E → Bool) (action : W → W × Result E R) (w : W)
      → retry retry_if 1 action w ≡ action w
  -- Otherwise it waits and tries again.
  pub tries_again :
      (retry_if : E → Bool) (n : ℕ) (action : W → W × Result E R) (w : W)
      → is_retryable retry_if (action w).1 ≡ true
      → retry retry_if (suc (suc n)) action w ≡ retry retry_if (suc n) action (wait (action w).0)

-- What one request of httpx comes to: the two exceptions that the code names, another one, or a
-- response with its status and body.
pub data Sent (B : Type 0) : Type 0 where
  connect_error : Sent B
  timed_out : Sent B
  other_error : Sent B
  response : ℕ → B → Sent B
