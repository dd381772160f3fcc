-- ===== src/Retry/Attempts.antt =====
-- What a call under `retry` comes to, by the tries that are made.
use p2_ai_knowledge_graph_fo.Base.{
  ℕ, zero, suc, ◌≤◌, ◌≡◌, refl, ap, ◌∙◌, ⊎_elim, ◌⊎◌, inl, inr, true, false, Bool, Bool-cases,
  arith,
}
use p2_ai_knowledge_graph_fo.Retry.{Result, is_retryable, Tenacity}

module _ {W E R : Type 0} (t : Tenacity W E R) (retry_if : E → Bool)
    (action : W → W × Result E R) where
  -- `Tried n w o`: from the world `w` on, `n` tries were made, all but the last failed with an error to
  -- retry, and the last came to `o`.
  pub data Tried : ℕ → W → W × Result E R → Type 0 where
    once : {w : W} → Tried 1 w (action w)
    again :
        {n : ℕ} {w : W} {o : W × Result E R}
        → is_retryable retry_if (action w).1 ≡ true
        → Tried n (t.wait (action w).0) o
        → Tried (suc n) w o

  pub retry-Tried :
      (n : ℕ) (w : W)
      → (k : ℕ) × Tried k w (t.retry retry_if (suc n) action w)
        × (k ≤ suc n)
        × ((is_retryable retry_if (t.retry retry_if (suc n) action w).1 ≡ false) ⊎ (k ≡ suc n))
  retry-Tried zero w = rw (t.gives_up retry_if action w) (1, once, omega arith, inr refl)
  retry-Tried (suc n) w = elim (Bool-cases (is_retryable retry_if (action w).1)) [
    | inr settled ↦
        rw (t.settles retry_if (suc n) action w settled) (1, once, omega arith, inl settled)
    | inl more ↦
        let (k, tried, le, last) = retry-Tried n (t.wait (action w).0) in
        rw (t.tries_again retry_if n action w more)
          (suc k, again more tried, omega arith, ⊎_elim inl (λ e. inr (ap suc e)) last)
  ]

  Tried-pos : {n : ℕ} {w : W} {o : W × Result E R} → Tried n w o → 1 ≤ n
  Tried-pos once = omega arith
  Tried-pos (again more tried) = omega arith

  -- Where some try that may still be made comes to an outcome that is not to be retried, so does the call.
  pub settled_by :
      (n : ℕ) {k : ℕ} {w : W} {o : W × Result E R}
      → Tried k w o
      → is_retryable retry_if o.1 ≡ false
      → k ≤ n
      → t.retry retry_if n action w ≡ o
  settled_by zero tried settled le = absurd (omega (arith, Tried-pos tried))
  settled_by (suc n) (once {w = w}) settled le = t.settles retry_if n action w settled
  settled_by (suc zero) (again more tried) settled le = absurd (omega (arith, Tried-pos tried))
  settled_by (suc (suc n)) (again {w = w} more tried) settled le =
      t.tries_again retry_if n action w more ∙ settled_by (suc n) tried settled (omega arith)
