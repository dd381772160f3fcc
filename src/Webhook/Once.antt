-- ===== src/Webhook/Once.antt =====
-- src/p2_satellite/event_listener.py: when a signature is accepted a second time, and when not.
use mathlib.Core.List.Memᴰ
use p2_ai_knowledge_graph_fo.Base.{
  ℕ, ◌+◌, ◌-◌, ◌≤◌, ◌<◌, ◌≡◌, refl, ap, inl, inr, true, false, List, [], ◌∷◌, ◌++◌, some, Text,
  list_eq, nat_eq, pair_eq, ltb, length, contains, arith, Memᴰ, mem-append, Bool-cases, ltb→lt,
  ltb→le,
}
use p2_ai_knowledge_graph_fo.Webhook.Header.{ℤ, pos, int_eq, clock_skew}
use p2_ai_knowledge_graph_fo.Webhook.{
  Settings, Cache, max_replay_cache_size, live_at, is_first_use, verify_parsed, verify_signature,
  header_of,
}
use p2_ai_knowledge_graph_fo.Webhook.Replay.{Entry, Kept}
use p2_ai_knowledge_graph_fo.Webhook.FirstUse.{recorded-refused, first_use-Kept, RecordedBy}
use p2_ai_knowledge_graph_fo.Webhook.Genuine.{
  Genuine, verify-Genuine, verify-cases, Attempt, verify, verify_all, verify_all-Kept,
}

-- What an accepted request leaves: its record, behind all others.
record Accepted (settings : Settings) (now m : ℕ) (cache' : Cache) (raw_body : Text)
    (key : ℤ × Text) : Type 0 where
  pub genuine : Genuine settings now raw_body key
  pub kept : Kept key (m + settings.event_webhook_max_clock_skew_seconds + 5) 0 cache'

verify_parsed-Accepted :
    (settings : Settings) (now m : ℕ) (cache : Cache) (raw_body : Text) (key : ℤ × Text)
    → RecordedBy settings.event_webhook_max_clock_skew_seconds m cache
    → (verify_parsed settings cache now m raw_body (some key)).1 ≡ true
    → Accepted settings now m
        (verify_parsed settings cache now m raw_body (some key)).0
        raw_body
        key
verify_parsed-Accepted settings now m cache raw_body key by ok =
    elim (verify-cases settings cache now m raw_body key) [
      | inl g ↦
          let used = verify-Genuine settings cache now m raw_body key g in
          record {
            genuine = g;
            kept = rw used (
                first_use-Kept settings.event_webhook_max_clock_skew_seconds key m cache by
                  (rw used at ok));
          }
      | inr e ↦ cc (rw e at ok)
    ]

recorded-unverified :
    (settings : Settings) (expiry n now m : ℕ) (cache : Cache) (raw_body : Text) (key : ℤ × Text)
    → m < expiry
    → Kept key expiry n cache
    → (verify_parsed settings cache now m raw_body (some key)).1 ≡ false
recorded-unverified settings expiry n now m cache raw_body key early kept =
    elim (verify-cases settings cache now m raw_body key) [
      | inl g ↦ rw (verify-Genuine settings cache now m raw_body key g) (
          recorded-refused settings.event_webhook_max_clock_skew_seconds key expiry n m cache early
            kept)
      | inr e ↦ rw e refl
    ]

stale-unverified :
    (settings : Settings) (now m : ℕ) (cache : Cache) (raw_body : Text) (key : ℤ × Text)
    → settings.event_webhook_max_clock_skew_seconds < clock_skew now key.0
    → (verify_parsed settings cache now m raw_body (some key)).1 ≡ false
stale-unverified settings now m cache raw_body key stale =
    elim (verify-cases settings cache now m raw_body key) [
      | inl g ↦ absurd (omega (arith, stale, g.fresh))
      | inr e ↦ rw e refl
    ]

clock_skew_pos : (now t : ℕ) → clock_skew now (pos t) ≡ (now - t) + (t - now)
unfolding clock_skew
clock_skew_pos now t = refl

swept :
    (now : ℕ) (cache : Cache) → ((p : Entry) → Memᴰ p cache → p.1 ≤ now) → live_at now cache ≡ []
unfolding live_at
swept now [] by = refl
swept now (p ∷ cache) by =
    ground (arith, by p (Memᴰ.head refl), swept now cache (λ q m. by q (Memᴰ.tail m)))

-- Where nothing else is behind the record, no other expires later.
last_to_expire :
    (key : ℤ × Text) (expiry : ℕ) (cache : Cache)
    → Kept key expiry 0 cache
    → (p : Entry) → Memᴰ p cache
    → p.1 ≤ expiry
last_to_expire key expiry cache kept p m =
    let entry : Entry = (key, expiry) in
    let split : Memᴰ p (kept.before ++ entry ∷ kept.after) = rw kept.at at m in
    elim ((mem-append p kept.before (entry ∷ kept.after)).0 split) [
      | inl old ↦ (kept.sooner p old).1
      | inr new ↦ elim (Memᴰ.cases_cons new) [
        | inl e ↦ omega (arith, ap (λ (q : Entry). q.1) e)
        | inr m' ↦ absurd (after_is_empty p kept.after m' kept.room)
      ]
    ]
  where
    after_is_empty : (p : Entry) (after : Cache) → Memᴰ p after → length after ≤ 0 → ⊥
    after_is_empty p [] m' room = Memᴰ.not-nil m'
    after_is_empty p (q ∷ after) m' room = omega (arith, room)

first_in_empty :
    (skew : ℕ) (key : ℤ × Text) (now : ℕ) (cache : Cache)
    → live_at now cache ≡ []
    → (is_first_use skew cache now key).1 ≡ true
unfolding is_first_use contains
first_in_empty skew key now cache e = rw e refl

-- When the last record expires, the cache is swept empty and takes the signature anew.
expired-used :
    (skew : ℕ) (key : ℤ × Text) (expiry : ℕ) (cache : Cache)
    → Kept key expiry 0 cache
    → (is_first_use skew cache expiry key).1 ≡ true
expired-used skew key expiry cache kept =
    first_in_empty skew key expiry cache (swept expiry cache (last_to_expire key expiry cache kept))

-- After a signature was accepted whose timestamp is at most 4 seconds ahead of the clock, no request
-- with the same timestamp and digest is accepted at any later time, whatever its body, if fewer than
-- 9999 requests came between, none of them later than it. The clocks advance together, and no record of the
-- cache was made after the first request.
pub accepted_once :
    (settings : Settings) (boot : ℕ) (cache : Cache) (first again : Attempt)
    (between : List Attempt) (t : ℕ) (hex : Text)
    → RecordedBy settings.event_webhook_max_clock_skew_seconds first.at cache
    → header_of first.signature_header ≡ some (pos t, hex)
    → t ≤ boot + first.at + 4
    → (verify settings boot cache first).1 ≡ true
    → ((r : Attempt) → Memᴰ r between → r.at ≤ again.at)
    → length between < max_replay_cache_size - 1
    → header_of again.signature_header ≡ some (pos t, hex)
    → (verify settings boot
        (verify_all settings boot (verify settings boot cache first).0 between)
        again).1
      ≡ false
unfolding verify_signature
accepted_once settings boot cache first again between t hex by h near ok earlier few h' =
    let skew = settings.event_webhook_max_clock_skew_seconds in
    let expiry = first.at + skew + 5 in
    let key : ℤ × Text = (pos t, hex) in
    let cache' = (verify settings boot cache first).0 in
    let cache'' = verify_all settings boot cache' between in
    rw h' (elim (Bool-cases (ltb again.at expiry)) [
      | inl early ↦
          let accepted =
            verify_parsed-Accepted settings (boot + first.at) first.at cache first.raw_body key by
              (rw h at ok) in
          let start : Kept key expiry 0 cache' = rw h accepted.kept in
          let soon = ltb→lt again.at expiry early in
          let kept =
            verify_all-Kept settings boot key expiry 0 cache' between
              (λ r m. omega (arith, earlier r m, soon)) (omega (arith, few)) start in
          recorded-unverified settings expiry kept.0 (boot + again.at) again.at cache''
            again.raw_body key soon kept.1
      | inr late ↦
          stale-unverified settings (boot + again.at) again.at cache'' again.raw_body key
            (ground (arith, near, ltb→le again.at expiry late, clock_skew_pos (boot + again.at) t))
    ])

-- A signature whose timestamp is 5 seconds or more ahead of the clock, but not more than the
-- allowed skew, is accepted again by the same request when its record expires.
pub accepted_again :
    (settings : Settings) (boot : ℕ) (cache : Cache) (first : Attempt) (t : ℕ) (hex : Text)
    → RecordedBy settings.event_webhook_max_clock_skew_seconds first.at cache
    → header_of first.signature_header ≡ some (pos t, hex)
    → boot + first.at + 5 ≤ t
    → (verify settings boot cache first).1 ≡ true
    → (verify settings boot
        (verify settings boot cache first).0
        (record first { at = first.at + settings.event_webhook_max_clock_skew_seconds + 5 })).1
      ≡ true
unfolding verify_signature
accepted_again settings boot cache first t hex by h ahead ok =
    let skew = settings.event_webhook_max_clock_skew_seconds in
    let expiry = first.at + skew + 5 in
    let key : ℤ × Text = (pos t, hex) in
    let accepted =
      verify_parsed-Accepted settings (boot + first.at) first.at cache first.raw_body key by
        (rw h at ok) in
    let g : Genuine settings (boot + expiry) first.raw_body key = record {
      fresh = ground (
        arith,
        ahead,
        accepted.genuine.fresh,
        clock_skew_pos (boot + first.at) t,
        clock_skew_pos (boot + expiry) t,
      );
      signed = accepted.genuine.signed;
    } in
    rw h (
      rw
        (verify-Genuine settings
          (verify_parsed settings cache (boot + first.at) first.at first.raw_body (some key)).0
          (boot + expiry) expiry first.raw_body key g)
        (expired-used skew key expiry _ accepted.kept))
