-- ===== src/RateLimiter.antt =====
-- core-side-patch/rate_limiter.py: the fixed-window counter. Times and the window are whole ticks of
-- the monotonic clock; the clock is an argument of each call.
pub mod Laws
pub mod Bounds
use p2_ai_knowledge_graph_fo.Base.{
  ℕ, ◌+◌, Bool, true, false, List, [], ◌∷◌, ◌++◌, Option, none, some, Text, codes, lookup, put, leb,
  ltb, if◌then◌else◌, ◌==◌, nat_eq, list_eq,
}

pub record FixedWindowRateLimiter : Type 0 where
  pub limit : ℕ
  pub window_seconds : ℕ
  -- key -> (window_start_monotonic, count_in_window)
  pub windows : List (Text × (ℕ × ℕ))

-- `self._windows.get(key, (now, 0))`
unfoldable pub window_of : FixedWindowRateLimiter → Text → ℕ → ℕ × ℕ
window_of l key now = elim (lookup key l.windows) [ none ↦ (now, 0) | some w ↦ w ]

-- A window that has elapsed starts afresh.
unfoldable pub current_window : FixedWindowRateLimiter → Text → ℕ → ℕ × ℕ
current_window l key now =
    let (window_start, count) = window_of l key now in
    if leb (window_start + l.window_seconds) now then (now, 0) else (window_start, count)

unfoldable pub allow : FixedWindowRateLimiter → Text → ℕ → FixedWindowRateLimiter × Bool
allow l key now =
    let (window_start, count) = current_window l key now in
    if leb l.limit count
    then (record l { windows = put key (window_start, count) l.windows }, false)
    else (record l { windows = put key (window_start, count + 1) l.windows }, true)

unfoldable pub allow_n : FixedWindowRateLimiter → Text → ℕ → ℕ → FixedWindowRateLimiter × Bool
allow_n l key n now =
    if n == 0
    then (l, true)
    else let (window_start, count) = current_window l key now in
      if ltb l.limit (count + n)
      then (record l { windows = put key (window_start, count) l.windows }, false)
      else (record l { windows = put key (window_start, count + n) l.windows }, true)

-- `_reset_for_tests`
unfoldable pub reset_for_tests : FixedWindowRateLimiter → FixedWindowRateLimiter
reset_for_tests l = record l { windows = [] }

-- The status of the `HTTPException`, or `none` if the call goes through.
unfoldable pub status_of : Bool → Option ℕ
status_of allowed = if allowed then none else some 429

unfoldable pub require_ingest_rate_limit :
    FixedWindowRateLimiter → Text → ℕ → FixedWindowRateLimiter × Option ℕ
require_ingest_rate_limit l scoped_key now =
    let (l', allowed) = allow l scoped_key now in (l', status_of allowed)

unfoldable pub require_ingest_rate_limit_n :
    FixedWindowRateLimiter → Text → ℕ → ℕ → FixedWindowRateLimiter × Option ℕ
require_ingest_rate_limit_n l scoped_key n now =
    let (l', allowed) = allow_n l scoped_key n now in (l', status_of allowed)

-- The key of an organisation is the text of its id after `org:`.
unfoldable pub require_on_demand_derive_rate_limit :
    FixedWindowRateLimiter → Text → ℕ → FixedWindowRateLimiter × Option ℕ
require_on_demand_derive_rate_limit l org_id now =
    let (l', allowed) = allow l (codes "org:" ++ org_id) now in (l', status_of allowed)
