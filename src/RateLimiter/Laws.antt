-- ===== src/RateLimiter/Laws.antt =====
-- core-side-patch/rate_limiter.py: `allow` against `allow_n`, and what a call leaves alone.
use p2_ai_knowledge_graph_fo.Base.{
  ℕ, ◌+◌, ◌≡◌, ◌≢◌, Text, lookup, lookup-put, arith, eq_iff, nat_eq, list_eq,
}
use p2_ai_knowledge_graph_fo.RateLimiter.{FixedWindowRateLimiter, current_window, allow, allow_n}

-- `allow` is `allow_n` with one unit.
pub allow-eq-allow_n :
    (l : FixedWindowRateLimiter) (key : Text) (now : ℕ) → allow l key now ≡ allow_n l key 1 now
unfolding allow allow_n
allow-eq-allow_n l key now = ground arith

-- A call for one key leaves the window of every other key as it is.
pub allow_n-other :
    (l : FixedWindowRateLimiter) (key other : Text) (n now : ℕ)
    → key ≢ other
    → lookup other (allow_n l key n now).0.windows ≡ lookup other l.windows
unfolding allow_n
allow_n-other l key other n now ne =
    let w = current_window l key now in
    ground (
      arith,
      eq_iff key other,
      lookup-put key other (w.0, w.1) l.windows,
      lookup-put key other (w.0, w.1 + n) l.windows,
    )
