-- ===== src/Webhook/Capacity.antt =====
-- src/p2_satellite/event_listener.py, `MAX_REPLAY_CACHE_SIZE`: the replay cache stays within its cap.
use mathlib.Core.List.Memᴰ
use p2_ai_knowledge_graph_fo.Base.{
  ℕ, suc, ◌+◌, ◌≤◌, ◌<◌, refl, ap, inl, inr, [], ◌∷◌, Text, put, remove, list_eq, nat_eq, pair_eq,
  keep_if, ltb, length, arith, eq_iff, Memᴰ, Bool-cases, length-keep_if-le,
}
use p2_ai_knowledge_graph_fo.Webhook.Header.{ℤ, int_eq}
use p2_ai_knowledge_graph_fo.Webhook.{
  Cache, max_replay_cache_size, soonest, evict, make_room, live_at, is_first_use,
}
use p2_ai_knowledge_graph_fo.Webhook.Replay.{Entry, length-remove-le}

length-put-le : (k : ℤ × Text) (v : ℕ) (cache : Cache) → length (put k v cache) ≤ suc (length cache)
unfolding put
length-put-le k v [] = omega arith
length-put-le k v ((j, w) ∷ cache) = ground (arith, length-put-le k v cache)

length-remove-lt :
    (p : Entry) (cache : Cache) → Memᴰ p cache → length (remove p.0 cache) < length cache
unfolding remove
length-remove-lt p [] m = absurd (Memᴰ.not-nil m)
length-remove-lt p ((j, w) ∷ cache) m = elim (Memᴰ.cases_cons m) [
  | inl e ↦ ground (arith, eq_iff j p.0, ap (λ (q : Entry). q.0) e, length-remove-le p.0 cache)
  | inr m' ↦ ground (arith, length-remove-lt p cache m')
]

mem-soonest : (best : Entry) (cache : Cache) → Memᴰ (soonest best cache) (best ∷ cache)
unfolding soonest
mem-soonest best [] = Memᴰ.head refl
mem-soonest best ((k, e) ∷ cache) = elim (Bool-cases (ltb e best.1)) [
  | inl h ↦ rw h (Memᴰ.tail (mem-soonest (k, e) cache))
  | inr h ↦ rw h (elim (Memᴰ.cases_cons (mem-soonest best cache)) [
    | inl q ↦ Memᴰ.head q
    | inr m ↦ Memᴰ.tail (Memᴰ.tail m)
  ])
]

length-make_room :
    (cache : Cache)
    → length cache ≤ max_replay_cache_size
    → length (make_room cache) < max_replay_cache_size
unfolding make_room evict
length-make_room [] h = omega arith
length-make_room (p ∷ cache) h =
    ground (arith, h, length-remove-lt (soonest p cache) (p ∷ cache) (mem-soonest p cache))

-- The replay cache never grows beyond its cap, whatever signature is used at whatever time.
pub length-is_first_use-le :
    (skew : ℕ) (cache : Cache) (now : ℕ) (key : ℤ × Text)
    → length cache ≤ max_replay_cache_size
    → length (is_first_use skew cache now key).0 ≤ max_replay_cache_size
unfolding is_first_use live_at
length-is_first_use-le skew cache now key h =
    let live = keep_if (λ (entry : Entry). ltb now entry.1) cache in
    let small = length-keep_if-le (λ (entry : Entry). ltb now entry.1) cache in
    ground (
      arith,
      h,
      small,
      length-make_room live (omega (arith, h, small)),
      length-put-le key (now + skew + 5) (make_room live),
    )
