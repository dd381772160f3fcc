-- ===== src/Validation/Laws.antt =====
-- core-side-patch/validation.py: which ids are bad, and when two derivations compare equal.
use p2_ai_knowledge_graph_fo.Base.{
  ◌≡◌, ◌⊎◌, ◌↔◌, true, not, List, Text, contains, contains_iff, to_set, mem-to_set, set_eq,
  set_eq_iff, SameMembers, mem-keep_if, mem-append, keep_if, Memᴰ, arith, list_eq, nat_eq,
}
use p2_ai_knowledge_graph_fo.Validation.{
  DerivedIds, Catalog, validate_obligation_control_ids, compare_derivation,
}

-- `x not in set(xs)`
not_in_set : (x : Text) (xs : List Text) → (not (contains x (to_set xs)) ≡ true) ↔ (¬ Memᴰ x xs)
not_in_set x xs = ground (arith, contains_iff x (to_set xs), mem-to_set x xs)

-- The bad ids are the obligations of the payload that are not in the catalog's obligations, and the
-- controls that are not in its control types.
pub validate-bad_iff :
    (payload : DerivedIds) (catalog : Catalog) (i : Text)
    → Memᴰ i (validate_obligation_control_ids payload catalog) ↔ (
        Memᴰ i payload.derived_obligations × (¬ Memᴰ i catalog.obligation)
        ⊎ Memᴰ i payload.derived_controls × (¬ Memᴰ i catalog.control_type))
unfolding validate_obligation_control_ids
validate-bad_iff payload catalog i =
    let bad = λ (xs : List Text) (x : Text). not (contains x (to_set xs)) in
    let os = payload.derived_obligations in
    let cs = payload.derived_controls in
    ground (
      arith,
      mem-append i (keep_if (bad catalog.obligation) os) (keep_if (bad catalog.control_type) cs),
      mem-keep_if (bad catalog.obligation) i os,
      mem-keep_if (bad catalog.control_type) i cs,
      not_in_set i catalog.obligation,
      not_in_set i catalog.control_type,
    )

same_sets : (xs ys : List Text) → (set_eq (to_set xs) (to_set ys) ≡ true) ↔ SameMembers xs ys
same_sets xs ys =
    let (to, from) = set_eq_iff (to_set xs) (to_set ys) in
    (
      λ e a. (
        λ m. (mem-to_set a ys).0 ((to e a).0 ((mem-to_set a xs).1 m)),
        λ m. (mem-to_set a xs).0 ((to e a).1 ((mem-to_set a ys).1 m)),
      ),
      λ same. from (λ a. (
        λ m. (mem-to_set a ys).1 ((same a).0 ((mem-to_set a xs).0 m)),
        λ m. (mem-to_set a xs).1 ((same a).1 ((mem-to_set a ys).0 m)),
      )),
    )

-- Two derivations compare equal exactly if their obligations are the same as sets, and their
-- controls too: order and repetition do not count.
pub compare_derivation_iff :
    (a b : DerivedIds)
    → (compare_derivation a b ≡ true) ↔ (
        SameMembers a.derived_obligations b.derived_obligations
        × SameMembers a.derived_controls b.derived_controls)
unfolding compare_derivation
compare_derivation_iff a b =
    let (o_to, o_from) = same_sets a.derived_obligations b.derived_obligations in
    let (c_to, c_from) = same_sets a.derived_controls b.derived_controls in
    (λ h. (o_to (ground arith), c_to (ground arith)), λ (o, c). ground (arith, o_from o, c_from c))
