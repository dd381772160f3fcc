-- ===== src/Tests/Hook.antt =====
-- The theorems about src/p2_satellite/event_listener.py at concrete requests. The HMAC of the tests
-- puts the secret in front of the message.
use mathlib.Core.List.Memᴰ
use p2_ai_knowledge_graph_fo.Base.{
  ◌≤◌, ◌≡◌, refl, true, false, [], ◌++◌, none, some, codes, ◌↔◌, arith, length, list_beq, contains,
  split, extend, after_prefix, is_space, strip, strip_left, strip_right, strip_end,
}
use p2_ai_knowledge_graph_fo.Webhook.Header.{
  pos, clock_skew, digits, decimal, is_digit, read_digits, read_signed, read_int, with_digest,
  parse_parts, parse_signature_header, negate,
}
use p2_ai_knowledge_graph_fo.Webhook.{
  Settings, max_replay_cache_size, is_first_use, live_at, verify_parsed, verify_signature,
  header_of, signed_message, ai_system_changed, accepted,
}
use p2_ai_knowledge_graph_fo.Webhook.Genuine.{Attempt, verify, verify_all}
use p2_ai_knowledge_graph_fo.Webhook.Once.{accepted_once, accepted_again}
use p2_ai_knowledge_graph_fo.Webhook.Capacity.{length-is_first_use-le}
use p2_ai_knowledge_graph_fo.Webhook.Handler.{ScheduledWhen, scheduled_iff}

abbrev settings : Settings
settings = record {
  event_webhook_max_clock_skew_seconds = 300;
  event_listener_shared_secret = codes "s";
  event_listener_ip_allowlist = [];
  hmac_sha256_hex = λ secret message. secret ++ message;
  model_validate_json = λ body. some (body, none);
}

abbrev on_time : Attempt
on_time = record {
  at = 5;
  raw_body = codes "b";
  signature_header = some (codes "t=1002,v1=sha256=s1002.b");
}

abbrev later : Attempt
later = record {
  at = 9;
  raw_body = codes "b";
  signature_header = some (codes "t=1002,v1=sha256=s1002.b");
}

on_time_header : header_of on_time.signature_header ≡ some (pos 1002, codes "s1002.b")
unfolding header_of parse_signature_header parse_parts with_digest read_int read_signed read_digits
    is_digit split extend after_prefix strip strip_left strip_right strip_end is_space negate
on_time_header = refl

on_time_accepted : (verify settings 1000 [] on_time).1 ≡ true
unfolding verify_signature verify_parsed clock_skew signed_message decimal digits list_beq
    is_first_use live_at contains header_of parse_signature_header parse_parts with_digest read_int
    read_signed read_digits is_digit split extend after_prefix strip strip_left strip_right
    strip_end is_space negate
on_time_accepted = refl

accepted_once_example :
    (verify settings 1000 (verify_all settings 1000 (verify settings 1000 [] on_time).0 []) later).1
    ≡ false
accepted_once_example =
    accepted_once settings 1000 [] on_time later [] 1002 (codes "s1002.b")
      (λ p m. absurd (Memᴰ.not-nil m)) on_time_header (omega arith) on_time_accepted
      (λ r m. absurd (Memᴰ.not-nil m)) (omega arith) on_time_header

-- The sender's clock is 100 seconds ahead.
abbrev ahead : Attempt
ahead = record {
  at = 5;
  raw_body = codes "b";
  signature_header = some (codes "t=1105,v1=sha256=s1105.b");
}

ahead_header : header_of ahead.signature_header ≡ some (pos 1105, codes "s1105.b")
unfolding header_of parse_signature_header parse_parts with_digest read_int read_signed read_digits
    is_digit split extend after_prefix strip strip_left strip_right strip_end is_space negate
ahead_header = refl

ahead_accepted : (verify settings 1000 [] ahead).1 ≡ true
unfolding verify_signature verify_parsed clock_skew signed_message decimal digits list_beq
    is_first_use live_at contains header_of parse_signature_header parse_parts with_digest read_int
    read_signed read_digits is_digit split extend after_prefix strip strip_left strip_right
    strip_end is_space negate
ahead_accepted = refl

accepted_again_example :
    (verify settings 1000 (verify settings 1000 [] ahead).0 (record ahead { at = 310 })).1 ≡ true
accepted_again_example =
    accepted_again settings 1000 [] ahead 1105 (codes "s1105.b") (λ p m. absurd (Memᴰ.not-nil m))
      ahead_header (omega arith) ahead_accepted

length-is_first_use-le_example :
    length (is_first_use 300 [] 5 (pos 1002, codes "s1002.b")).0 ≤ max_replay_cache_size
length-is_first_use-le_example =
    length-is_first_use-le 300 [] 5 (pos 1002, codes "s1002.b") (omega arith)

scheduled_iff_example :
    ((ai_system_changed settings [] 1005 5 none (codes "b") on_time.signature_header).1
      ≡ accepted (codes "b") none)
    ↔ ScheduledWhen settings [] 1005 5 none (codes "b") on_time.signature_header (codes "b") none
scheduled_iff_example =
    scheduled_iff settings [] 1005 5 none (codes "b") on_time.signature_header (codes "b") none
