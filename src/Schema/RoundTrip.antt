-- ===== src/Schema/RoundTrip.antt =====
-- src/p2_satellite/schema.py: `split_node_id` undoes `node_id`.
use mathlib.Core.Option.{some-injective}
use p2_ai_knowledge_graph_fo.Base.{
  ◌≡◌, refl, ap, Bool, true, not, [], ◌∷◌, ◌++◌, some, Text, contains, contains_iff, partition, all,
  all-eq-true, nat_beq, Bool-cases, inl, inr, arith, list_eq, nat_eq,
}
use p2_ai_knowledge_graph_fo.Schema.{node_id, split_node_id, node_types, colon}

abbrev has_no_colon : Text → Bool
has_no_colon = all (λ c. not (nat_beq c colon))

partition-append :
    (s t : Text) → has_no_colon s ≡ true → partition colon (s ++ colon ∷ t) ≡ (s, true, t)
unfolding partition
partition-append [] t h = refl
partition-append (c ∷ s) t h = ground (arith, partition-append s t)

node_types_have_no_colon : all has_no_colon node_types ≡ true
node_types_have_no_colon = refl

-- The id that `node_id` makes of a type and a key is split into this type and this key again,
-- also where the key holds colons.
pub split_node_id-node_id :
    (node_type node_key nid : Text)
    → node_id node_type node_key ≡ some nid
    → split_node_id nid ≡ (node_type, node_key)
unfolding node_id split_node_id
split_node_id-node_id node_type node_key nid h = elim (Bool-cases (contains node_type node_types)) [
  | inl known ↦
      let plain : has_no_colon node_type ≡ true =
        (all-eq-true has_no_colon node_types).0 node_types_have_no_colon node_type
          ((contains_iff node_type node_types).0 known) in
      let made : node_type ++ colon ∷ node_key ≡ nid = some-injective _ _ (rw known at h) in
      rw (← made)
        (ap (λ (r : Text × Bool × Text). (r.0, r.2)) (partition-append node_type node_key plain))
  | inr unknown ↦ cc (rw unknown at h)
]
