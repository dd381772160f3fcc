-- ===== src/Scheduler/Event.antt =====
-- src/p2_satellite/event_listener.py, `process_ai_system_changed`: what the job of an event does.
use p2_ai_knowledge_graph_fo.Base.{
  ◌≡◌, ◌≢◌, refl, sym, ◌∙◌, ap, ◌⊎◌, inl, inr, ◌↔◌, true, false, [], ◌∷◌, Option, none, some,
  Option-cases, Text, Memᴰ, lookup, lookup-put, list_eq, nat_eq, eq_refl, eq_iff, arith, contains,
  list_beq, put, ◌==◌,
}
use p2_ai_knowledge_graph_fo.Schema.{node_id, node_ai_system, node_obligation, node_control_type}
use p2_ai_knowledge_graph_fo.Traversal.{Derivation, Settings}
use p2_ai_knowledge_graph_fo.Traversal.Correct.{Derived, depth_of, derive_obligations-agrees}
use p2_ai_knowledge_graph_fo.GraphBuilder.{Networkx, walked}
use p2_ai_knowledge_graph_fo.GraphBuilder.Perform.{id_of, node_id-known, split-id_of}
use p2_ai_knowledge_graph_fo.GraphBuilder.Structure.{serialize_graph_structure}
use p2_ai_knowledge_graph_fo.Concurrency.{Locks, try_acquire, exit_processing}
use p2_ai_knowledge_graph_fo.Concurrency.Exclusion.{try_acquire_held, try_acquire_free, held-cases}
use p2_ai_knowledge_graph_fo.Delivery.Reported.{ai_system_id-derive_obligations}
use p2_ai_knowledge_graph_fo.Scheduler.{
  EventJob, push_graph_structure, push_derivation, push_derived, derive_and_push,
  process_ai_system_changed,
}

module _ {G : Type 0} (nx : Networkx G) (settings : Settings) (i : Text) where
  -- The node of the system.
  abbrev pub start : Text
  start = id_of (node_ai_system, i)

  system_id : node_id node_ai_system i ≡ some start
  unfolding contains list_beq
  system_id = node_id-known node_ai_system i refl

  -- The derivation is that of the system: the keys of the obligations and of the controls that active
  -- edges of the graph reach from its node within the bound.
  pub record IsOf (graph : G) (d : Derivation) : Type 0 where
    pub named : d.ai_system_id ≡ i
    pub obligations :
        (k : Text)
        → Memᴰ k d.derived_obligations
          ↔ Derived (walked nx graph) (depth_of settings none) start node_obligation k
    pub controls :
        (k : Text)
        → Memᴰ k d.derived_controls
          ↔ Derived (walked nx graph) (depth_of settings none) start node_control_type k

  -- The lock of the system is free after the job, and every other is as it was.
  abbrev pub IsReleased : Locks → Locks → Type 0
  IsReleased locks after =
      (lookup i after ≡ some false) × ((j : Text) → j ≢ i → lookup j after ≡ lookup j locks)

  abbrev pub Outcome : Option G → Locks → EventJob → Type 0
  Outcome fetched locks job =
      ((lookup i locks ≡ some true) × (job.pushes ≡ []) × (job.locks_after ≡ locks))
      ⊎ ((lookup i locks ≢ some true)
          × (fetched ≡ none)
          × (job.pushes ≡ [])
          × IsReleased locks job.locks_after)
      ⊎ ((lookup i locks ≢ some true)
          × (graph : G) × (d : Derivation) × (fetched ≡ some graph)
          × IsOf graph d
          × (job.pushes
              ≡ push_graph_structure (serialize_graph_structure nx graph) ∷ push_derivation d ∷ [])
          × IsReleased locks job.locks_after)

  derived-IsOf :
      (graph : G)
      → (d : Derivation) × IsOf graph d
        × (derive_and_push nx settings (node_id node_ai_system i) (some graph)
            ≡ push_graph_structure (serialize_graph_structure nx graph) ∷ push_derivation d ∷ [])
  unfolding derive_and_push push_derived contains list_beq
  derived-IsOf graph =
      let (d, derives, obligations, controls) =
        derive_obligations-agrees settings (walked nx graph) start none in
      (
        d,
        record {
          named =
              ai_system_id-derive_obligations settings (walked nx graph) start none d derives
              ∙ ap (λ (key : Text × Text). key.1) (split-id_of (node_ai_system, i) refl);
          obligations = obligations;
          controls = controls;
        },
        rw (system_id, derives) refl,
      )

  apart : (j : Text) → i ≢ j → (i == j) ≡ false
  apart j other = ground (arith, eq_iff i j)

  kept_elsewhere :
      (locks : Locks) (j : Text) → i ≢ j → lookup j (put i false locks) ≡ lookup j locks
  kept_elsewhere locks j other = lookup-put i j false locks ∙ rw (apart j other) refl

  released :
      (fetched : Option G) (locks : Locks)
      → lookup i locks ≢ some true
      → IsReleased locks (process_ai_system_changed nx settings fetched i locks).locks_after
  unfolding process_ai_system_changed exit_processing
  released fetched locks free =
      let taken = try_acquire_free locks i free in
      let kept : (j : Text) → j ≢ i → lookup j (try_acquire locks i).0 ≡ lookup j locks =
        λ j other. taken.locks_after j ∙ rw (apart j (λ e. other (sym e))) refl in
      rw taken.acquired (
        simp (lookup-put, eq_refl),
        λ j other. kept_elsewhere (try_acquire locks i).0 j (λ e. other (sym e)) ∙ kept j other,
      )

  nothing_pushed : (target : Option Text) → derive_and_push nx settings target none ≡ []
  unfolding derive_and_push
  nothing_pushed none = refl
  nothing_pushed (some target) = refl

  pushes_when_free :
      (fetched : Option G) (locks : Locks)
      → lookup i locks ≢ some true
      → (process_ai_system_changed nx settings fetched i locks).pushes
        ≡ derive_and_push nx settings (node_id node_ai_system i) fetched
  unfolding process_ai_system_changed
  pushes_when_free fetched locks free = rw (try_acquire_free locks i free).acquired refl

  skipped :
      (fetched : Option G) (locks : Locks)
      → lookup i locks ≡ some true
      → ((process_ai_system_changed nx settings fetched i locks).pushes ≡ [])
        × ((process_ai_system_changed nx settings fetched i locks).locks_after ≡ locks)
  unfolding process_ai_system_changed exit_processing
  skipped fetched locks held = rw (try_acquire_held locks i held) (refl, refl)

  -- If the lock of the system is held, the job pushes nothing and leaves every lock as it is. If it is not,
  -- and the graph cannot be fetched, it pushes nothing; if the graph was fetched, it pushes its
  -- structure, and then the derivation of this system from it, which the traversal returns. In both
  -- cases the system's lock is free when the job is over, and every other lock as it was.
  pub process_ai_system_changed-Outcome :
      (fetched : Option G) (locks : Locks)
      → Outcome fetched locks (process_ai_system_changed nx settings fetched i locks)
  process_ai_system_changed-Outcome fetched locks = elim (held-cases (lookup i locks)) [
    | inl held ↦
        let (none_pushed, same) = skipped fetched locks held in inl (held, none_pushed, same)
    | inr free ↦ elim (Option-cases fetched) [
      | inl failed ↦ inr (
          inl (
            free,
            failed,
            pushes_when_free fetched locks free
                ∙ ap (derive_and_push nx settings (node_id node_ai_system i)) failed
                ∙ nothing_pushed (node_id node_ai_system i),
            released fetched locks free,
          ))
      | inr (graph, got) ↦
          let (d, of_system, pushes) = derived-IsOf graph in
          inr (
            inr (
              free,
              graph,
              d,
              got,
              of_system,
              pushes_when_free fetched locks free
                  ∙ ap (derive_and_push nx settings (node_id node_ai_system i)) got
                  ∙ pushes,
              released fetched locks free,
            ))
    ]
  ]
