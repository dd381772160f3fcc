-- ===== src/Tests/Core.antt =====
-- The theorems about core-side-patch/validation.py, core-side-patch/rate_limiter.py and
-- src/p2_satellite/concurrency.py at concrete inputs.
use p2_ai_knowledge_graph_fo.Base.{
  ℕ, ◌≤◌, ◌≡◌, true, List, [], ◌∷◌, codes, Memᴰ, ◌↔◌, arith, SameMembers, lookup, list_eq, nat_eq,
}
use p2_ai_knowledge_graph_fo.Validation.{DerivedIds, Catalog, compare_derivation}
use p2_ai_knowledge_graph_fo.Validation.Laws.{compare_derivation_iff}
use p2_ai_knowledge_graph_fo.RateLimiter.{FixedWindowRateLimiter}
use p2_ai_knowledge_graph_fo.RateLimiter.Bounds.{Charge, admitted, admitted-le-allowance}
use p2_ai_knowledge_graph_fo.Concurrency.{try_acquire, enter}
use p2_ai_knowledge_graph_fo.Concurrency.Exclusion.{
  Reach, here, next, entering, init, IsConsistent, reachable-IsConsistent, acquired_iff_unprocessed,
}

abbrev payload : DerivedIds
payload = record { derived_obligations = codes "o" ∷ codes "x" ∷ []; derived_controls = [] }

abbrev catalog : Catalog
catalog = record { obligation = codes "o" ∷ []; control_type = [] }

abbrev other_payload : DerivedIds
other_payload = record {
  derived_obligations = codes "x" ∷ codes "o" ∷ codes "x" ∷ [];
  derived_controls = [];
}

compare_derivation_iff_example : (compare_derivation payload other_payload ≡ true) ↔ (
    SameMembers payload.derived_obligations other_payload.derived_obligations
    × SameMembers payload.derived_controls other_payload.derived_controls)
compare_derivation_iff_example = compare_derivation_iff payload other_payload

abbrev limiter : FixedWindowRateLimiter
limiter = record { limit = 3; window_seconds = 10; windows = [] }

abbrev charges : List Charge
charges =
    record { key = codes "org:1"; units = 2; now = 7 }
    ∷ record { key = codes "org:1"; units = 2; now = 9 }
    ∷ []

admitted-le-allowance_example : admitted limiter (codes "org:1") charges ≤ 3
unfolding lookup
admitted-le-allowance_example =
    admitted-le-allowance limiter (codes "org:1") 7 charges
      (omega arith, omega arith, (omega arith, omega arith, _))

one_entered : Reach init (enter 1 (codes "s") init)
one_entered = next here (entering init 1 (codes "s"))

reachable-IsConsistent_example : IsConsistent (enter 1 (codes "s") init)
reachable-IsConsistent_example = reachable-IsConsistent (enter 1 (codes "s") init) one_entered

acquired_iff_unprocessed_example :
    ((try_acquire (enter 1 (codes "s") init).locks (codes "s")).1 ≡ true)
    ↔ (¬ ((caller : ℕ) × Memᴰ (caller, codes "s") (enter 1 (codes "s") init).processing))
acquired_iff_unprocessed_example =
    acquired_iff_unprocessed (enter 1 (codes "s") init) (codes "s") one_entered
