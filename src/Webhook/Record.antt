-- ===== src/Webhook/Record.antt =====
-- src/p2_satellite/event_listener.py: a record of the replay cache outlives the uses after it.
use mathlib.Core.List.Memᴰ
use mathlib.Core.List.{append_assoc}
use p2_ai_knowledge_graph_fo.Base.{
  ℕ, suc, ◌+◌, ◌<◌, ◌≡◌, ◌≢◌, refl, ap, inl, inr, false, [], ◌∷◌, ◌++◌, Text, put, list_eq, nat_eq,
  pair_eq, leb, length, contains, contains_iff, map, arith, Memᴰ, mem-append, Bool-cases,
  length-append, subst,
}
use p2_ai_knowledge_graph_fo.Webhook.Header.{ℤ, int_eq}
use p2_ai_knowledge_graph_fo.Webhook.{
  Cache, max_replay_cache_size, evict, make_room, live_at, is_first_use,
}
use p2_ai_knowledge_graph_fo.Webhook.Replay.{
  Entry, Kept, live_at-Kept, put-absent, make_room-Kept, mem-remove,
}

pub Kept-suc :
    (key : ℤ × Text) (expiry n : ℕ) (cache : Cache)
    → Kept key expiry n cache
    → Kept key expiry (suc n) cache
Kept-suc key expiry n cache k = record {
  before = k.before;
  after = k.after;
  at = k.at;
  sooner = k.sooner;
  others = k.others;
  room = omega (arith, k.room);
}

put-Kept :
    (k key : ℤ × Text) (v expiry n : ℕ) (cache : Cache)
    → ((p : Entry) → Memᴰ p cache → p.0 ≢ k)
    → Kept key expiry n cache
    → Kept key expiry (suc n) (put k v cache)
put-Kept k key v expiry n cache absent kept =
    let entry : Entry = (key, expiry) in
    let new : Entry = (k, v) in
    let there : Memᴰ entry cache =
      rw kept.at ((mem-append entry kept.before (entry ∷ kept.after)).1 (inr (Memᴰ.head refl))) in
    record {
      before = kept.before;
      after = kept.after ++ new ∷ [];
      at =
          rw (put-absent k v cache absent, kept.at)
            (append_assoc kept.before (entry ∷ kept.after) (new ∷ []));
      sooner = kept.sooner;
      others = λ p m. elim ((mem-append p kept.after (new ∷ [])).0 m) [
        | inl old ↦ kept.others p old
        | inr last ↦ λ same.
            absent entry there (cc (same, ap (λ (q : Entry). q.0) (Memᴰ.eq_of_singleton last)))
      ];
      room = omega (arith, kept.room, length-append kept.after (new ∷ []));
    }

mem-evict : (p : Entry) (cache : Cache) → Memᴰ p (evict cache) → Memᴰ p cache
unfolding evict
mem-evict p [] m = m
mem-evict p (entry ∷ cache) m = mem-remove _ p (entry ∷ cache) m

pub mem-make_room : (p : Entry) (cache : Cache) → Memᴰ p (make_room cache) → Memᴰ p cache
unfolding make_room
mem-make_room p cache m = elim (Bool-cases (leb max_replay_cache_size (length cache))) [
  | inl h ↦ mem-evict p cache (rw h at m)
  | inr h ↦ rw h at m
]

-- A key that the test does not find is the key of no entry.
pub not_contained :
    (k : ℤ × Text) (cache : Cache)
    → contains k (map (λ (entry : Entry). entry.0) cache) ≡ false
    → (p : Entry) → Memᴰ p cache
    → p.0 ≢ k
not_contained k cache h p m same = cc (
  h,
  (contains_iff k (map (λ (entry : Entry). entry.0) cache)).1 (
      subst (λ x. Memᴰ x (map (λ (entry : Entry). entry.0) cache)) same
        (Memᴰ.map (λ (entry : Entry). entry.0) m)),
)

-- A use of any signature before the record expires, with room for one more behind it.
pub is_first_use-Kept :
    (skew : ℕ) (key k : ℤ × Text) (expiry n now : ℕ) (cache : Cache)
    → now < expiry
    → suc n < max_replay_cache_size
    → Kept key expiry n cache
    → Kept key expiry (suc n) (is_first_use skew cache now k).0
unfolding is_first_use
is_first_use-Kept skew key k expiry n now cache early few kept =
    let live = live_at-Kept key expiry n now cache early kept in
    elim (Bool-cases (contains k (map (λ (entry : Entry). entry.0) (live_at now cache)))) [
      | inl h ↦ rw h (Kept-suc key expiry n (live_at now cache) live)
      | inr h ↦ rw h (
          put-Kept k key (now + skew + 5) expiry n (make_room (live_at now cache))
            (λ p m. not_contained k (live_at now cache) h p (mem-make_room p (live_at now cache) m))
            (make_room-Kept key expiry n (live_at now cache) few live))
    ]
