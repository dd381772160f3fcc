-- ===== src/Webhook/FirstUse.antt =====
-- src/p2_satellite/event_listener.py: what one use of a signature does to the replay cache.
use mathlib.Core.List.Memᴰ
use p2_ai_knowledge_graph_fo.Base.{
  ℕ, ◌+◌, ◌≤◌, ◌<◌, ◌≡◌, refl, ap, inl, inr, Bool, true, false, [], Text, list_eq, nat_eq, pair_eq,
  contains, map, arith, Memᴰ, mem-keep_if, Bool-cases,
}
use p2_ai_knowledge_graph_fo.Webhook.Header.{ℤ, int_eq}
use p2_ai_knowledge_graph_fo.Webhook.{Cache, make_room, live_at, is_first_use}
use p2_ai_knowledge_graph_fo.Webhook.Replay.{Entry, Kept, live_at-Kept, Kept-found, put-absent}
use p2_ai_knowledge_graph_fo.Webhook.Record.{not_contained, mem-make_room}

-- A signature that is recorded is refused while its record lasts.
pub recorded-refused :
    (skew : ℕ) (key : ℤ × Text) (expiry n now : ℕ) (cache : Cache)
    → now < expiry
    → Kept key expiry n cache
    → (is_first_use skew cache now key).1 ≡ false
unfolding is_first_use
recorded-refused skew key expiry n now cache early kept =
    rw
      (Kept-found key expiry n (live_at now cache) (live_at-Kept key expiry n now cache early kept))
      refl

-- No record of the cache lasts longer than one that is made now.
abbrev pub RecordedBy : ℕ → ℕ → Cache → Type 0
RecordedBy skew now cache = (p : Entry) → Memᴰ p cache → p.1 ≤ now + skew + 5

pub seen_refused :
    (skew : ℕ) (key : ℤ × Text) (now : ℕ) (cache : Cache)
    → contains key (map (λ (entry : Entry). entry.0) (live_at now cache)) ≡ true
    → is_first_use skew cache now key ≡ (live_at now cache, false)
unfolding is_first_use
seen_refused skew key now cache seen = rw seen refl

-- The first use records the signature behind all others.
pub first_use-Kept :
    (skew : ℕ) (key : ℤ × Text) (now : ℕ) (cache : Cache)
    → RecordedBy skew now cache
    → (is_first_use skew cache now key).1 ≡ true
    → Kept key (now + skew + 5) 0 (is_first_use skew cache now key).0
unfolding is_first_use live_at
first_use-Kept skew key now cache by h =
    let live = live_at now cache in
    elim (Bool-cases (contains key (map (λ (entry : Entry). entry.0) (live_at now cache)))) [
      | inl seen ↦ cc (ap (λ (r : Cache × Bool). r.1) (seen_refused skew key now cache seen), h)
      | inr new ↦ rw new (record {
        before = make_room (live_at now cache);
        after = [];
        at = put-absent key (now + skew + 5) (make_room (live_at now cache)) (λ p m.
            not_contained key (live_at now cache) new p (mem-make_room p (live_at now cache) m));
        sooner = λ p m. (
          not_contained key (live_at now cache) new p (mem-make_room p (live_at now cache) m),
          by p ((mem-keep_if _ p cache).0 (mem-make_room p (live_at now cache) m)).0,
        );
        others = λ p m. absurd (Memᴰ.not-nil m);
        room = omega arith;
      })
    ]
