-- ===== src/Scheduler/Release.antt =====
-- src/p2_satellite/scheduler.py, `_run_safety_net_poll`: the sweep ends, and gives its locks back.
use mathlib.Core.List.Memᴰ
use p2_ai_knowledge_graph_fo.Base.{
  ℕ, ◌+◌, ◌≡◌, refl, subst, ◌↔◌, ◌⊎◌, inl, inr, ⊎_elim, true, false, List, [], ◌∷◌, ◌++◌, none,
  some, Text, lookup, put, lookup-put, keep_if, mem-cons, Memᴰ, eq_iff, list_eq, nat_eq, arith,
}
use p2_ai_knowledge_graph_fo.Schema.{split_node_id}
use p2_ai_knowledge_graph_fo.Traversal.{DiGraph, Settings}
use p2_ai_knowledge_graph_fo.Traversal.Correct.{derive_obligations-agrees}
use p2_ai_knowledge_graph_fo.Concurrency.{Locks, try_acquire, exit_processing}
use p2_ai_knowledge_graph_fo.Concurrency.Exclusion.{try_acquire_held, try_acquire_free, held-cases}
use p2_ai_knowledge_graph_fo.Scheduler.{
  PushBatch, chunks, push_chunks, Sweep, sweep_one, sweep, release_all, is_ai_system,
  run_safety_net_poll,
}

abbrev pub IsHeld : Locks → Text → Type 0
IsHeld locks i = lookup i locks ≡ some true

-- Leaving the contexts frees the locks that were taken, and no other.
release_all-IsHeld :
    (held : List Text) (locks : Locks) (i : Text)
    → IsHeld (release_all held locks) i ↔ (IsHeld locks i × (¬ Memᴰ i held))
unfolding release_all exit_processing
release_all-IsHeld [] locks i = (λ h. (h, Memᴰ.not-nil), λ h. h.0)
release_all-IsHeld (j ∷ held) locks i = ground (
  arith,
  release_all-IsHeld held (put j false locks) i,
  lookup-put j i false locks,
  eq_iff j i,
  mem-cons i j held,
)

module _ (settings : Settings) (g : DiGraph) (before : Locks) where
  -- A lock is held that was held before the sweep, or that the sweep took; it took none of the former.
  record IsSweeping (s : Sweep) : Type 0 where
    held_iff : (i : Text) → IsHeld s.locks i ↔ (IsHeld before i ⊎ Memᴰ i s.held)
    apart : (i : Text) → Memᴰ i s.held → ¬ IsHeld before i

  sweep_one-IsSweeping :
      (s : Sweep) (node_id : Text)
      → IsSweeping s
      → (s' : Sweep) × (sweep_one settings g s node_id ≡ some s') × IsSweeping s'
  unfolding sweep_one
  sweep_one-IsSweeping s node_id c =
      let key = (split_node_id node_id).1 in
      elim (held-cases (lookup key s.locks)) [
        | inl taken ↦ (
          record s { locks = s.locks; skipped = s.skipped + 1 },
          rw (try_acquire_held s.locks key taken) refl,
          record { held_iff = c.held_iff; apart = c.apart },
        )
        | inr free ↦
            let taken = try_acquire_free s.locks key free in
            let (d, returns, _, _) = derive_obligations-agrees settings g node_id none in
            (
              record s {
                locks = (try_acquire s.locks key).0;
                held = key ∷ s.held;
                derivations = s.derivations ++ d ∷ [];
              },
              rw (taken.acquired, returns) refl,
              record {
                held_iff = λ i.
                    ground (
                      arith,
                      taken.locks_after i,
                      eq_iff key i,
                      c.held_iff i,
                      mem-cons i key s.held,
                    );
                apart = λ i m held. elim (Memᴰ.cases_cons m) [
                  | inl same ↦ free (subst (IsHeld s.locks) same ((c.held_iff i).1 (inl held)))
                  | inr old ↦ c.apart i old held
                ];
              },
            )
      ]

  sweep-IsSweeping :
      (s : Sweep) (node_ids : List Text)
      → IsSweeping s
      → (s' : Sweep) × (sweep settings g s node_ids ≡ some s') × IsSweeping s'
  unfolding sweep
  sweep-IsSweeping s [] c = (s, refl, c)
  sweep-IsSweeping s (node_id ∷ node_ids) c =
      let (s₁, one, c₁) = sweep_one-IsSweeping s node_id c in
      let (s', rest, c') = sweep-IsSweeping s₁ node_ids c₁ in (s', rw (one, rest) refl, c')

-- The sweep ends on every graph, whichever locks others hold at its start and whatever core answers;
-- when it is over the locks that are held are those that were held before it: it took none of
-- these, and has given back those that it took.
pub run_safety_net_poll_releases :
    (settings : Settings) (ingest_batch_chunk_size : ℕ) (push : PushBatch) (g : DiGraph)
    (graph_nodes : List Text) (before : Locks)
    → (after : Locks) × (processed : ℕ) × (skipped : ℕ) × (run_safety_net_poll settings
          ingest_batch_chunk_size push g graph_nodes before
        ≡ some (after, processed, skipped))
      × ((i : Text) → IsHeld after i ↔ IsHeld before i)
unfolding run_safety_net_poll
run_safety_net_poll_releases settings ingest_batch_chunk_size push g graph_nodes before =
    let start : Sweep = record { locks = before; held = []; derivations = []; skipped = 0 } in
    let (s, ends, c) =
      sweep-IsSweeping settings g before start (keep_if (is_ai_system g) graph_nodes) (record {
        held_iff = λ i. (inl, ⊎_elim (λ h. h) (λ m. absurd (Memᴰ.not-nil m)));
        apart = λ i m. absurd (Memᴰ.not-nil m);
      }) in
    (
      release_all s.held s.locks,
      push_chunks push (chunks ingest_batch_chunk_size s.derivations),
      s.skipped,
      rw ends refl,
      λ i. ground (arith, release_all-IsHeld s.held s.locks i, c.held_iff i, c.apart i),
    )
