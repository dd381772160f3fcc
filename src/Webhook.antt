-- ===== src/Webhook.antt =====
-- src/p2_satellite/event_listener.py: the webhook that core's change events come to. Times are whole
-- seconds: of the wall clock for the signature, of the monotonic clock for the replay cache.
pub mod Header
pub mod Replay
pub mod Record
pub mod FirstUse
pub mod Genuine
pub mod Once
pub mod Handler
pub mod Capacity
use p2_ai_knowledge_graph_fo.Base.{
  ℕ, ◌+◌, Bool, true, false, not, ◌&&◌, List, [], ◌∷◌, ◌++◌, Option, none, some, Text, Dict, lookup,
  put, remove, if◌then◌else◌, ◌==◌, list_eq, nat_eq, pair_eq, keep_if, ltb, leb, length, contains,
  split, strip, codes, map,
}
use Header.{ℤ, int_eq, clock_skew, decimal, parse_signature_header}

-- The settings the webhook reads, and the HMAC and JSON libraries it calls.
pub record Settings : Type 0 where
  pub event_webhook_max_clock_skew_seconds : ℕ
  pub event_listener_shared_secret : Text
  pub event_listener_ip_allowlist : Text
  -- `hmac.new(key, message, hashlib.sha256).hexdigest()`
  pub hmac_sha256_hex : Text → Text → Text
  -- `AiSystemChangedEvent.model_validate_json`: the system's id and the field that changed
  pub model_validate_json : Text → Option (Text × Option Text)

abbrev pub Cache : Type 0
Cache = Dict (ℤ × Text) ℕ

abbrev pub max_replay_cache_size : ℕ
max_replay_cache_size = 10000

-- The entry of `min(d, key=...)`, the first of those that expire soonest.
unfoldable pub soonest : (ℤ × Text) × ℕ → Cache → (ℤ × Text) × ℕ
soonest best [] = best
soonest best ((k, expiry) ∷ cache) = soonest (if ltb expiry best.1 then (k, expiry) else best) cache

unfoldable pub evict : Cache → Cache
evict [] = []
evict (entry ∷ cache) = remove (soonest entry cache).0 (entry ∷ cache)

unfoldable pub make_room : Cache → Cache
make_room cache = if leb max_replay_cache_size (length cache) then evict cache else cache

-- What the sweep leaves: a dict has a key once, so each expired entry is deleted by its key.
unfoldable pub live_at : ℕ → Cache → Cache
live_at now_monotonic cache = keep_if (λ entry. ltb now_monotonic entry.1) cache

unfoldable pub is_first_use : ℕ → Cache → ℕ → ℤ × Text → Cache × Bool
is_first_use skew cache now_monotonic key =
    let live = live_at now_monotonic cache in
    if contains key (map (λ entry. entry.0) live)
    then (live, false)
    else (put key (now_monotonic + skew + 5) (make_room live), true)

-- What is signed: `f"{t}.".encode() + raw_body`.
unfoldable pub signed_message : ℤ → Text → Text
signed_message t raw_body = decimal t ++ codes "." ++ raw_body

-- `compare_digest` raises a TypeError, which fails the request, for a digest with a character that is not
-- ASCII; here such a digest is refused as any other that is not the expected one.
unfoldable pub verify_parsed : Settings → Cache → ℕ → ℕ → Text → Option (ℤ × Text) → Cache × Bool
verify_parsed settings cache now now_monotonic raw_body none = (cache, false)
verify_parsed settings cache now now_monotonic raw_body (some (t, provided_hex)) =
    let skew = settings.event_webhook_max_clock_skew_seconds in
    if ltb skew (clock_skew now t)
    then (cache, false)
    else if not (
        provided_hex
        == settings.hmac_sha256_hex settings.event_listener_shared_secret
            (signed_message t raw_body))
    then (cache, false)
    else is_first_use skew cache now_monotonic (t, provided_hex)

-- A header that is missing or empty is refused as one that does not parse.
unfoldable pub header_of : Option Text → Option (ℤ × Text)
header_of none = none
header_of (some signature_header) = parse_signature_header signature_header

unfoldable pub verify_signature : Settings → Cache → ℕ → ℕ → Text → Option Text → Cache × Bool
verify_signature settings cache now now_monotonic raw_body signature_header =
    verify_parsed settings cache now now_monotonic raw_body (header_of signature_header)

-- The parts of the allowlist that hold more than spaces.
unfoldable pub allowed_ips : Text → List Text
allowed_ips allowlist_raw = keep_if (λ ip. not (ip == [])) (map strip (split b',' allowlist_raw))

-- A host that is not known is in no allowlist.
unfoldable pub client_ip_allowed : Settings → Option Text → Bool
client_ip_allowed settings none = strip settings.event_listener_ip_allowlist == []
client_ip_allowed settings (some client_host) =
    if strip settings.event_listener_ip_allowlist == []
    then true
    else contains client_host (allowed_ips settings.event_listener_ip_allowlist)

-- The status of the answer, with the background job that is added when the event is accepted.
pub data Answer : Type 0 where
  forbidden unauthorized unprocessable : Answer
  accepted : Text → Option Text → Answer

unfoldable pub answer_event : Option (Text × Option Text) → Answer
answer_event none = unprocessable
answer_event (some (ai_system_id, changed_field)) = accepted ai_system_id changed_field

unfoldable pub ai_system_changed :
    Settings → Cache → ℕ → ℕ → Option Text → Text → Option Text → Cache × Answer
ai_system_changed settings cache now now_monotonic client_host raw_body x_p2_signature =
    if not (client_ip_allowed settings client_host)
    then (cache, forbidden)
    else let (cache', verified) =
        verify_signature settings cache now now_monotonic raw_body x_p2_signature in
      if verified
      then (cache', answer_event (settings.model_validate_json raw_body))
      else (cache', unauthorized)
