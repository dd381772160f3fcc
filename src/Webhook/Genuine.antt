-- ===== src/Webhook/Genuine.antt =====
-- src/p2_satellite/event_listener.py: requests with a fresh and genuine signature, and the others.
use p2_ai_knowledge_graph_fo.Base.{
  ℕ, suc, ◌+◌, ◌≤◌, ◌<◌, ◌≡◌, refl, sym, ap, ◌⊎◌, inl, inr, Bool, false, List, [], ◌∷◌, Option,
  none, some, Text, ◌==◌, list_eq, nat_eq, pair_eq, ltb, length, arith, eq_iff, Memᴰ, Bool-cases,
  ltb→le, subst,
}
use p2_ai_knowledge_graph_fo.Webhook.Header.{ℤ, int_eq, clock_skew}
use p2_ai_knowledge_graph_fo.Webhook.{
  Settings, Cache, max_replay_cache_size, is_first_use, verify_parsed, verify_signature, header_of,
  signed_message,
}
use p2_ai_knowledge_graph_fo.Webhook.Replay.{Kept}
use p2_ai_knowledge_graph_fo.Webhook.Record.{Kept-suc, is_first_use-Kept}

-- A request whose signature is fresh and genuine: only the replay cache decides.
pub record Genuine (settings : Settings) (now : ℕ) (raw_body : Text) (key : ℤ × Text) : Type 0 where
  pub fresh : clock_skew now key.0 ≤ settings.event_webhook_max_clock_skew_seconds
  pub signed :
      key.1
      ≡ settings.hmac_sha256_hex settings.event_listener_shared_secret
          (signed_message key.0 raw_body)

pub verify-Genuine :
    (settings : Settings) (cache : Cache) (now now_monotonic : ℕ) (raw_body : Text) (key : ℤ × Text)
    → Genuine settings now raw_body key
    → verify_parsed settings cache now now_monotonic raw_body (some key)
      ≡ is_first_use settings.event_webhook_max_clock_skew_seconds cache now_monotonic key
unfolding verify_parsed
verify-Genuine settings cache now now_monotonic raw_body (t, hex) g =
    let sent =
      settings.hmac_sha256_hex settings.event_listener_shared_secret (signed_message t raw_body) in
    let skew = settings.event_webhook_max_clock_skew_seconds in
    let on_time : ltb skew (clock_skew now t) ≡ false = ground (arith, g.fresh) in
    rw (on_time, (eq_iff hex sent).1 g.signed) refl

-- Any other request is refused, and the cache stays.
pub verify-cases :
    (settings : Settings) (cache : Cache) (now now_monotonic : ℕ) (raw_body : Text) (key : ℤ × Text)
    → Genuine settings now raw_body key
      ⊎ (verify_parsed settings cache now now_monotonic raw_body (some key) ≡ (cache, false))
unfolding verify_parsed
verify-cases settings cache now now_monotonic raw_body (t, hex) =
    let sent =
      settings.hmac_sha256_hex settings.event_listener_shared_secret (signed_message t raw_body) in
    let skew = settings.event_webhook_max_clock_skew_seconds in
    elim (Bool-cases (ltb skew (clock_skew now t))) [
      | inl stale ↦ inr (rw stale refl)
      | inr on_time ↦ elim (Bool-cases (hex == sent)) [
        | inl same ↦ inl (record { fresh = ltb→le _ _ on_time; signed = (eq_iff hex sent).0 same })
        | inr other ↦ inr (rw (on_time, other) refl)
      ]
    ]

verify_parsed-Kept :
    (settings : Settings) (key : ℤ × Text) (expiry n now now_monotonic : ℕ) (cache : Cache)
    (raw_body : Text) (parsed : Option (ℤ × Text))
    → now_monotonic < expiry
    → suc n < max_replay_cache_size
    → Kept key expiry n cache
    → Kept key expiry (suc n) (verify_parsed settings cache now now_monotonic raw_body parsed).0
unfolding verify_parsed
verify_parsed-Kept settings key expiry n now now_monotonic cache raw_body none early few kept =
    Kept-suc key expiry n cache kept
verify_parsed-Kept settings key expiry n now m cache raw_body (some k) early few kept =
    elim (verify-cases settings cache now m raw_body k) [
      | inl g ↦
          subst (λ c. Kept key expiry (suc n) c)
            (ap (λ (r : Cache × Bool). r.0)
              (sym (verify-Genuine settings cache now m raw_body k g)))
            (is_first_use-Kept settings.event_webhook_max_clock_skew_seconds key k expiry n m cache
              early few kept)
      | inr e ↦
          subst (λ c. Kept key expiry (suc n) c) (ap (λ (r : Cache × Bool). r.0) (sym e))
            (Kept-suc key expiry n cache kept)
    ]

-- A request: the monotonic time it comes at, the body and the header.
pub record Attempt : Type 0 where
  pub at : ℕ
  pub raw_body : Text
  pub signature_header : Option Text

-- The wall clock shows `boot` more than the monotonic one.
abbrev pub verify : Settings → ℕ → Cache → Attempt → Cache × Bool
verify settings boot cache r =
    verify_signature settings cache (boot + r.at) r.at r.raw_body r.signature_header

abbrev pub verify_all : Settings → ℕ → Cache → List Attempt → Cache
verify_all settings boot cache [] = cache
verify_all settings boot cache (r ∷ rs) =
    verify_all settings boot (verify settings boot cache r).0 rs

pub verify_all-Kept :
    (settings : Settings) (boot : ℕ) (key : ℤ × Text) (expiry n : ℕ) (cache : Cache)
    (rs : List Attempt)
    → ((r : Attempt) → Memᴰ r rs → r.at < expiry)
    → n + length rs < max_replay_cache_size
    → Kept key expiry n cache
    → (m : ℕ) × Kept key expiry m (verify_all settings boot cache rs)
unfolding verify_signature
verify_all-Kept settings boot key expiry n cache [] early few kept = (n, kept)
verify_all-Kept settings boot key expiry n cache (r ∷ rs) early few kept =
    verify_all-Kept settings boot key expiry (suc n) (verify settings boot cache r).0 rs
      (λ q m. early q (Memᴰ.tail m)) (ground (arith, few))
      (verify_parsed-Kept settings key expiry n (boot + r.at) r.at cache r.raw_body
        (header_of r.signature_header) (early r (Memᴰ.head refl)) (ground (arith, few)) kept)
