-- ===== src/Ingest/Batch.antt =====
-- core-side-patch/routers/patent_ingest_p2.py: a batch and its parts.
use p2_ai_knowledge_graph_fo.Base.{
  ℕ, ◌≡◌, refl, inl, inr, List, [], ◌∷◌, ◌++◌, some, Option-cases, ◌>>=◌,
}
use p2_ai_knowledge_graph_fo.Ingest.{DerivationRequest, Core, process_one_derivation, process_batch}

-- To push a batch in two parts, one after the other, has the effect and the answers of the whole
-- batch, and raises exactly if the whole batch raises.
process_batch-append :
    (xs ys : List DerivationRequest) (org user : ℕ) (core : Core)
    → process_batch (xs ++ ys) org user core ≡ (
        process_batch xs org user core >>= λ a.
        process_batch ys org user a.0 >>= λ b. some (b.0, a.1 ++ b.1))
unfolding process_batch
process_batch-append [] ys org user core = elim (Option-cases (process_batch ys org user core)) [
  | inl e ↦ rw e refl
  | inr (b, e) ↦ rw e refl
]
process_batch-append (x ∷ xs) ys org user core =
    elim (Option-cases (process_one_derivation x org user core)) [
      | inl e ↦ rw e refl
      | inr (one, e) ↦
          rw (e, process_batch-append xs ys org user one.0)
            (elim (Option-cases (process_batch xs org user one.0)) [
              | inl e' ↦ rw e' refl
              | inr (a, e') ↦ rw e' (elim (Option-cases (process_batch ys org user a.0)) [
                | inl e'' ↦ rw e'' refl
                | inr (b, e'') ↦ rw e'' refl
              ])
            ])
    ]
