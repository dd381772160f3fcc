-- ===== src/RateLimiter/Bounds.antt =====
-- core-side-patch/rate_limiter.py: how many units a key is admitted in a stretch of time.
use p2_ai_knowledge_graph_fo.Base.{
  ℕ, ◌+◌, ◌-◌, ◌*◌, ◌≤◌, ◌<◌, ◌≡◌, ◌&&◌, List, [], ◌∷◌, Option, none, some, Text, lookup,
  lookup-put_self, arith, leb, ◌==◌, nat_eq, list_eq, Option-cases, eq-cases, eq_refl,
  ne_of_beq-false, subst, sym, inl, inr, if◌then◌else◌,
}
use p2_ai_knowledge_graph_fo.RateLimiter.{
  FixedWindowRateLimiter, window_of, current_window, allow_n,
}
use p2_ai_knowledge_graph_fo.RateLimiter.Laws.{allow_n-other}

-- A call of `allow_n`.
pub record Charge : Type 0 where
  pub key : Text
  pub units : ℕ
  pub now : ℕ

-- The units that a run of calls is admitted for one key.
unfoldable pub admitted : FixedWindowRateLimiter → Text → List Charge → ℕ
admitted l key [] = 0
admitted l key (c ∷ cs) =
    let rest = admitted (allow_n l c.key c.units c.now).0 key cs in
    (if (allow_n l c.key c.units c.now).1 && (c.key == key) then c.units else 0) + rest

-- Every call comes at or after `t`, and before `t + window`.
abbrev pub Within : ℕ → ℕ → List Charge → Type 0
Within t window [] = Unit
Within t window (c ∷ cs) = (t ≤ c.now) × (c.now < t + window) × Within t window cs

-- What is left for a key from the time `t` on, for one window length.
abbrev room : ℕ → ℕ → Option (ℕ × ℕ) → ℕ
room limit t none = limit
room limit t (some (start, count)) = if leb t start then limit - count else (limit - count) + limit

abbrev left : FixedWindowRateLimiter → Text → ℕ → ℕ
left l key t = room l.limit t (lookup key l.windows)

-- The window that a call works with is the stored one, or starts with the call.
window_now :
    (l : FixedWindowRateLimiter) (key : Text) (now t : ℕ)
    → t ≤ now
    → now < t + l.window_seconds
    → room l.limit t (some (current_window l key now)) ≤ left l key t
unfolding current_window window_of
window_now l key now t after before = elim (Option-cases (lookup key l.windows)) [
  | inl e ↦ rw e (ground arith)
  | inr ((start, count), e) ↦ rw e (ground arith)
]

own_call :
    (l : FixedWindowRateLimiter) (key : Text) (n now t : ℕ)
    → t ≤ now
    → now < t + l.window_seconds
    → (if (allow_n l key n now).1 then n else 0) + left (allow_n l key n now).0 key t ≤ left l key t
unfolding allow_n
own_call l key n now t after before =
    let w = current_window l key now in
    ground (
      arith,
      window_now l key now t after before,
      lookup-put_self key (w.0, w.1) l.windows,
      lookup-put_self key (w.0, w.1 + n) l.windows,
    )

settings-allow_n :
    (l : FixedWindowRateLimiter) (key : Text) (n now : ℕ)
    → ((allow_n l key n now).0.limit ≡ l.limit)
      × ((allow_n l key n now).0.window_seconds ≡ l.window_seconds)
unfolding allow_n
settings-allow_n l key n now = ground arith

one_call :
    (l : FixedWindowRateLimiter) (key : Text) (c : Charge) (t : ℕ)
    → t ≤ c.now
    → c.now < t + l.window_seconds
    → (if (allow_n l c.key c.units c.now).1 && (c.key == key) then c.units else 0)
        + left (allow_n l c.key c.units c.now).0 key t
      ≤ left l key t
one_call l key c t after before = elim (eq-cases c.key key) [
  | inl same ↦ ground (arith, same, eq_refl key, own_call l key c.units c.now t after before)
  | inr other ↦ ground (
    arith,
    other,
    settings-allow_n l c.key c.units c.now,
    allow_n-other l c.key key c.units c.now (ne_of_beq-false c.key key other),
  )
]

admitted-le-left :
    (l : FixedWindowRateLimiter) (key : Text) (t : ℕ) (cs : List Charge)
    → Within t l.window_seconds cs
    → admitted l key cs ≤ left l key t
unfolding admitted
admitted-le-left l key t [] h = omega arith
admitted-le-left l key t (c ∷ cs) (after, before, rest) =
    let l' = (allow_n l c.key c.units c.now).0 in
    let later : admitted l' key cs ≤ left l' key t =
      admitted-le-left l' key t cs
        (subst (λ w. Within t w cs) (sym (settings-allow_n l c.key c.units c.now).1) rest) in
    omega (arith, one_call l key c t after before)

-- The most that a key can be admitted in a stretch of one window length.
abbrev pub allowance : FixedWindowRateLimiter → Text → ℕ
allowance l key = elim (lookup key l.windows) [ none ↦ l.limit | some _ ↦ 2 * l.limit ]

-- In any stretch of time of one window length, whatever the calls for this and other keys, a key is
-- admitted at most its limit if the limiter has no window for it, and at most twice the limit
-- otherwise.
pub admitted-le-allowance :
    (l : FixedWindowRateLimiter) (key : Text) (t : ℕ) (cs : List Charge)
    → Within t l.window_seconds cs
    → admitted l key cs ≤ allowance l key
admitted-le-allowance l key t cs h = ground (arith, admitted-le-left l key t cs h)
