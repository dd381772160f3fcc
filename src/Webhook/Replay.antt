-- ===== src/Webhook/Replay.antt =====
-- src/p2_satellite/event_listener.py, `_is_first_use`: what the replay cache promises.
use mathlib.Core.List.Memᴰ
use p2_ai_knowledge_graph_fo.Base.{
  ℕ, suc, ◌≤◌, ◌<◌, ◌≡◌, ◌≢◌, refl, ap, inl, inr, Bool, true, false, [], ◌∷◌, ◌++◌, Text, put,
  remove, ◌==◌, list_eq, nat_eq, pair_eq, keep_if, ltb, leb, length, contains, contains_iff, map,
  arith, eq_iff, Memᴰ, mem-keep_if, mem-append, Bool-cases, length-keep_if-le, lt→ltb,
}
use p2_ai_knowledge_graph_fo.Webhook.Header.{ℤ, int_eq}
use p2_ai_knowledge_graph_fo.Webhook.{
  Cache, max_replay_cache_size, soonest, evict, make_room, live_at,
}

abbrev pub Entry : Type 0
Entry = (ℤ × Text) × ℕ

-- The key is recorded until `expiry`: the entries before it expire no later, and it is at most
-- `n` entries from the end.
pub record Kept (key : ℤ × Text) (expiry n : ℕ) (cache : Cache) : Type 0 where
  pub before : Cache
  pub after : Cache
  pub at : cache ≡ before ++ (key, expiry) ∷ after
  pub sooner : (p : Entry) → Memᴰ p before → (p.0 ≢ key) × (p.1 ≤ expiry)
  pub others : (p : Entry) → Memᴰ p after → p.0 ≢ key
  pub room : length after ≤ n

keep_if-append :
    (p : Entry → Bool) (xs ys : Cache) → keep_if p (xs ++ ys) ≡ keep_if p xs ++ keep_if p ys
keep_if-append p [] ys = refl
keep_if-append p (x ∷ xs) ys = ground (arith, keep_if-append p xs ys)

-- The sweep at a time before the expiry leaves the record where it is.
pub live_at-Kept :
    (key : ℤ × Text) (expiry n now : ℕ) (cache : Cache)
    → now < expiry
    → Kept key expiry n cache
    → Kept key expiry n (live_at now cache)
unfolding live_at
live_at-Kept key expiry n now cache early k = record {
  before = live_at now k.before;
  after = live_at now k.after;
  at =
      rw
        (
          k.at,
          keep_if-append (λ entry. ltb now entry.1) k.before ((key, expiry) ∷ k.after),
          lt→ltb now expiry early,
        )
        refl;
  sooner = λ p m. k.sooner p ((mem-keep_if _ p k.before).0 m).0;
  others = λ p m. k.others p ((mem-keep_if _ p k.after).0 m).0;
  room = omega (arith, k.room, length-keep_if-le (λ (p : Entry). ltb now p.1) k.after);
}

pub Kept-found :
    (key : ℤ × Text) (expiry n : ℕ) (cache : Cache)
    → Kept key expiry n cache
    → contains key (map (λ entry. entry.0) cache) ≡ true
Kept-found key expiry n cache k =
    let entry : Entry = (key, expiry) in
    let there : Memᴰ entry cache =
      rw k.at ((mem-append entry k.before (entry ∷ k.after)).1 (inr (Memᴰ.head refl))) in
    (contains_iff key (map (λ (p : Entry). p.0) cache)).1 (Memᴰ.map (λ (p : Entry). p.0) there)

soonest-others :
    (key : ℤ × Text) (best : Entry) (after : Cache)
    → best.0 ≢ key
    → ((p : Entry) → Memᴰ p after → p.0 ≢ key)
    → (soonest best after).0 ≢ key
unfolding soonest
soonest-others key best [] other others = other
soonest-others key best ((k, e) ∷ after) other others = elim (Bool-cases (ltb e best.1)) [
  | inl h ↦
      rw (h, soonest)
        (soonest-others key (k, e) after (others (k, e) (Memᴰ.head refl))
          (λ p m. others p (Memᴰ.tail m)))
  | inr h ↦ rw (h, soonest) (soonest-others key best after other (λ p m. others p (Memᴰ.tail m)))
]

-- A record that an entry stands before which expires no later is not what expires soonest.
soonest-ne :
    (key : ℤ × Text) (expiry : ℕ) (best : Entry) (before after : Cache)
    → best.0 ≢ key
    → best.1 ≤ expiry
    → ((p : Entry) → Memᴰ p before → (p.0 ≢ key) × (p.1 ≤ expiry))
    → ((p : Entry) → Memᴰ p after → p.0 ≢ key)
    → (soonest best (before ++ (key, expiry) ∷ after)).0 ≢ key
unfolding soonest
soonest-ne key expiry best [] after other le sooner others =
    let late : ltb expiry best.1 ≡ false = ground (arith, le) in
    rw (late, soonest) (soonest-others key best after other others)
soonest-ne key expiry best ((k, e) ∷ before) after other le sooner others =
    elim (Bool-cases (ltb e best.1)) [
      | inl h ↦
          let first = sooner (k, e) (Memᴰ.head refl) in
          rw (h, soonest)
            (soonest-ne key expiry (k, e) before after first.0 first.1
              (λ p m. sooner p (Memᴰ.tail m)) others)
      | inr h ↦
          rw (h, soonest)
            (soonest-ne key expiry best before after other le (λ p m. sooner p (Memᴰ.tail m))
              others)
    ]

pub put-absent :
    (k : ℤ × Text) (v : ℕ) (cache : Cache)
    → ((p : Entry) → Memᴰ p cache → p.0 ≢ k)
    → put k v cache ≡ cache ++ (k, v) ∷ []
unfolding put
put-absent k v [] h = refl
put-absent k v ((j, w) ∷ cache) h =
    ground (
      arith,
      eq_iff j k,
      h (j, w) (Memᴰ.head refl),
      put-absent k v cache (λ p m. h p (Memᴰ.tail m)),
    )

remove-append : (k : ℤ × Text) (xs ys : Cache) → remove k (xs ++ ys) ≡ remove k xs ++ remove k ys
unfolding remove
remove-append k [] ys = refl
remove-append k ((j, w) ∷ xs) ys = ground (arith, remove-append k xs ys)

pub mem-remove : (k : ℤ × Text) (p : Entry) (xs : Cache) → Memᴰ p (remove k xs) → Memᴰ p xs
unfolding remove
mem-remove k p [] m = m
mem-remove k p ((j, w) ∷ xs) m = elim (Bool-cases (j == k)) [
  | inl h ↦ Memᴰ.tail (mem-remove k p xs (rw h at m))
  | inr h ↦ elim (Memᴰ.cases_cons (rw h at m)) [
    | inl q ↦ Memᴰ.head q
    | inr r ↦ Memᴰ.tail (mem-remove k p xs r)
  ]
]

pub length-remove-le : (k : ℤ × Text) (xs : Cache) → length (remove k xs) ≤ length xs
unfolding remove
length-remove-le k [] = omega arith
length-remove-le k ((j, w) ∷ xs) = ground (arith, length-remove-le k xs)

remove-other :
    (k key : ℤ × Text) (expiry : ℕ) (xs : Cache)
    → k ≢ key
    → remove k ((key, expiry) ∷ xs) ≡ (key, expiry) ∷ remove k xs
unfolding remove
remove-other k key expiry xs other = ground (arith, eq_iff key k, other)

-- Deleting another key leaves the record.
remove-Kept :
    (k key : ℤ × Text) (expiry n : ℕ) (cache : Cache)
    → k ≢ key
    → Kept key expiry n cache
    → Kept key expiry n (remove k cache)
remove-Kept k key expiry n cache other kept = record {
  before = remove k kept.before;
  after = remove k kept.after;
  at =
      rw
        (
          kept.at,
          remove-append k kept.before ((key, expiry) ∷ kept.after),
          remove-other k key expiry kept.after other,
        )
        refl;
  sooner = λ p m. kept.sooner p (mem-remove k p kept.before m);
  others = λ p m. kept.others p (mem-remove k p kept.after m);
  room = omega (arith, kept.room, length-remove-le k kept.after);
}

-- What `evict` deletes is another key, where an entry stands before the record.
evicted-other :
    (key : ℤ × Text) (expiry : ℕ) (best : Entry) (before after : Cache)
    → ((p : Entry) → Memᴰ p (best ∷ before) → (p.0 ≢ key) × (p.1 ≤ expiry))
    → ((p : Entry) → Memᴰ p after → p.0 ≢ key)
    → (soonest best (before ++ (key, expiry) ∷ after)).0 ≢ key
evicted-other key expiry best before after sooner others =
    let first = sooner best (Memᴰ.head refl) in
    soonest-ne key expiry best before after first.0 first.1 (λ p m. sooner p (Memᴰ.tail m)) others

-- With fewer entries behind the record than the cap, the eviction takes another one.
evict-Kept :
    (key : ℤ × Text) (expiry n : ℕ) (cache before after : Cache)
    → suc n < length cache
    → cache ≡ before ++ (key, expiry) ∷ after
    → ((p : Entry) → Memᴰ p before → (p.0 ≢ key) × (p.1 ≤ expiry))
    → ((p : Entry) → Memᴰ p after → p.0 ≢ key)
    → length after ≤ n
    → Kept key expiry n (evict cache)
unfolding evict
evict-Kept key expiry n cache [] after long at sooner others room =
    absurd (omega (arith, long, room, ap length at))
evict-Kept key expiry n cache (best ∷ before) after long at sooner others room =
    let whole : Cache = best ∷ before ++ (key, expiry) ∷ after in
    let k = (soonest best (before ++ (key, expiry) ∷ after)).0 in
    let kept : Kept key expiry n whole = record {
      before = best ∷ before;
      after = after;
      at = refl;
      sooner = sooner;
      others = others;
      room = room;
    } in
    rw at (
      remove-Kept k key expiry n whole (evicted-other key expiry best before after sooner others)
        kept)

pub make_room-Kept :
    (key : ℤ × Text) (expiry n : ℕ) (cache : Cache)
    → suc n < max_replay_cache_size
    → Kept key expiry n cache
    → Kept key expiry n (make_room cache)
unfolding make_room
make_room-Kept key expiry n cache few kept =
    elim (Bool-cases (leb max_replay_cache_size (length cache))) [
      | inl h ↦ rw h (
          evict-Kept key expiry n cache kept.before kept.after (ground (arith, few)) kept.at
            kept.sooner kept.others kept.room)
      | inr h ↦ rw h kept
    ]
