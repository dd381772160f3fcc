-- ===== src/Retry/Requests.antt =====
-- What a call under `retry` comes to when its action sends one request, by what was sent.
use p2_ai_knowledge_graph_fo.Base.{
  ℕ, suc, ◌≤◌, ◌≡◌, refl, ap, sym, ◌∙◌, ◌↔◌, ◌⊎◌, inl, inr, ⊎_elim, true, false, Bool, Bool-cases,
}
use p2_ai_knowledge_graph_fo.Retry.{Result, is_retryable, Sent, Tenacity}
use p2_ai_knowledge_graph_fo.Retry.Attempts.{Tried, once, again, retry-Tried, settled_by}

module _ {W Q B : Type 0} (send : Q → W → W × Sent B) (wait : W → W) (Again : Sent B → Type 0)
    (request : Q) where
  -- `Sends k w w' s`: from the world `w` on, `k` requests were sent, all but the last met with what is
  -- worth another try, and the last met with `s` and left the world `w'`.
  pub data Sends : ℕ → W → W → Sent B → Type 0 where
    last : {w : W} → Sends 1 w (send request w).0 (send request w).1
    after :
        {k : ℕ} {w w' : W} {s : Sent B}
        → Again (send request w).1
        → Sends k (wait (send request w).0) w' s
        → Sends (suc k) w w' s

module _ {W Q B E R : Type 0} (t : Tenacity W E R) (send : Q → W → W × Sent B)
    (answer : Sent B → Result E R) (retry_if : E → Bool) (Again : Sent B → Type 0)
    (agrees : (s : Sent B) → (is_retryable retry_if (answer s) ≡ true) ↔ Again s)
    (request : Q) where
  abbrev action : W → W × Result E R
  action w = ((send request w).0, answer (send request w).1)

  Tried-Sends :
      {k : ℕ} {w : W} {o : W × Result E R}
      → Tried t retry_if action k w o
      → (w' : W) × (s : Sent B) × Sends send t.wait Again request k w w' s × (o ≡ (w', answer s))
  Tried-Sends (once {w = w}) = ((send request w).0, (send request w).1, last, refl)
  Tried-Sends (again {w = w} more tried) =
      let (w', s, sends, e) = Tried-Sends tried in
      (w', s, after ((agrees (send request w).1).0 more) sends, e)

  Sends-Tried :
      {k : ℕ} {w w' : W} {s : Sent B}
      → Sends send t.wait Again request k w w' s
      → Tried t retry_if action k w (w', answer s)
  Sends-Tried last = once
  Sends-Tried (after {w = w} more sends) =
      again ((agrees (send request w).1).1 more) (Sends-Tried sends)

  settled : (s : Sent B) → is_retryable retry_if (answer s) ≡ false → ¬ Again s
  settled s ends more = cc (ends, (agrees s).1 more)

  unsettled : (s : Sent B) → ¬ Again s → is_retryable retry_if (answer s) ≡ false
  unsettled s never = elim (Bool-cases (is_retryable retry_if (answer s))) [
    | inl more ↦ absurd (never ((agrees s).0 more))
    | inr e ↦ e
  ]

  pub retry-Sends :
      (n : ℕ) (w : W)
      → (k : ℕ) × (w' : W) × (s : Sent B) × Sends send t.wait Again request k w w' s
        × (t.retry retry_if (suc n) action w ≡ (w', answer s))
        × (k ≤ suc n)
        × ((¬ Again s) ⊎ (k ≡ suc n))
  retry-Sends n w =
      let (k, tried, le, ends) = retry-Tried t retry_if action n w in
      let (w', s, sends, e) = Tried-Sends tried in
      (
        k,
        w',
        s,
        sends,
        e,
        le,
        ⊎_elim
            (λ ended.
              inl (
                settled s (sym (ap (λ (o : W × Result E R). is_retryable retry_if o.1) e) ∙ ended)))
            inr ends,
      )

  pub retry-settled :
      (n k : ℕ) (w w' : W) (s : Sent B)
      → Sends send t.wait Again request k w w' s
      → ¬ Again s
      → k ≤ n
      → t.retry retry_if n action w ≡ (w', answer s)
  retry-settled n k w w' s sends never le =
      settled_by t retry_if action n (Sends-Tried sends) (unsettled s never) le
