-- ===== src/Concurrency.antt =====
-- src/p2_satellite/concurrency.py: the per-system lock, and the callers that hold one. A caller is
-- the event path or the safety-net poll; each step is atomic.
pub mod Exclusion
use p2_ai_knowledge_graph_fo.Base.{
  ℕ, Bool, true, false, not, List, [], ◌∷◌, ◌++◌, Option, none, some, Text, Dict, lookup, put,
  if◌then◌else◌, ◌==◌, list_eq, nat_eq, pair_eq, keep_if,
}

-- `_locks`: whether the lock of an id is held.
abbrev pub Locks : Type 0
Locks = Dict Text Bool

-- `_get_lock` makes the lock when it is first asked for.
unfoldable pub get_lock : Locks → Text → Locks × Bool
get_lock locks ai_system_id = elim (lookup ai_system_id locks) [
  | none ↦ (put ai_system_id false locks, false)
  | some held ↦ (locks, held)
]

-- `lock.acquire(blocking=False)`: the entry of `try_acquire_ai_system_processing`.
unfoldable pub try_acquire : Locks → Text → Locks × Bool
try_acquire locks ai_system_id =
    let (locks', held) = get_lock locks ai_system_id in
    if held then (locks', false) else (put ai_system_id true locks', true)

-- The exit of the context manager.
unfoldable pub exit_processing : Locks → Text → Bool → Locks
exit_processing locks ai_system_id acquired =
    if acquired then put ai_system_id false locks else locks

-- The locks, and the callers inside the context manager that were yielded `True`.
pub record System : Type 0 where
  pub locks : Locks
  pub processing : List (ℕ × Text)

-- A caller enters the context manager for an id. `_get_lock` and `lock.acquire` are one step: between
-- them another caller can add locks or take this one, and no lock leaves the registry, so the entry
-- acts as it would at once where it acquires.
unfoldable pub enter : ℕ → Text → System → System
enter caller i s =
    let (locks, acquired) = try_acquire s.locks i in
    record {
      locks = locks;
      processing = if acquired then (caller, i) ∷ s.processing else s.processing;
    }

-- A caller that is processing an id leaves.
unfoldable pub leave : ℕ → Text → System → System
leave caller i s = record {
  locks = exit_processing s.locks i true;
  processing = keep_if (λ p. not (p == (caller, i))) s.processing;
}
