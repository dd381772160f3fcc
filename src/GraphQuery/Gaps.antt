-- ===== src/GraphQuery/Gaps.antt =====
-- core-side-patch/graph_query.py, `find_coverage_gaps`: what a reported gap says of the tables.
use mathlib.Core.List.Memᴰ
use mathlib.Core.Logic.Iff
use p2_ai_knowledge_graph_fo.Base.{
  ℕ, ◌≡◌, ◌≢◌, refl, sym, ◌↔◌, ◌⊎◌, inl, inr, false, not, ◌&&◌, List, [], ◌∷◌, map, Option, none,
  some, Text, Memᴰ, Distinct, keep_if, contains, contains_iff, mem-keep_if, mem-append, mem-sorted,
  text_le, sorted, subst, list_eq, nat_eq, ◌==◌, eq_iff, arith,
}
use p2_ai_knowledge_graph_fo.Schema.{node_ai_system}
use p2_ai_knowledge_graph_fo.Tables.{Session, GovernanceGraphNode, TraversalResult}
use p2_ai_knowledge_graph_fo.GraphQuery.{
  Gap, obligation_needs, linked_control_types, report_gap, latest_result, gaps_of_obligations,
  gaps_of_system, gaps_of_systems, find_coverage_gaps,
}
use p2_ai_knowledge_graph_fo.GraphQuery.Needs.{NeedsRow, mem-obligation_needs}
use p2_ai_knowledge_graph_fo.GraphQuery.Latest.{
  LinkRow, IsLatest, mem-linked_control_types, latest_result-IsLatest,
}

-- The entry of an obligation of a system, by the sets that were collected.
record IsEntry (session : Session) (org_id : ℕ) (i o : Text) (gap : Gap) : Type 0 where
  named : gap.ai_system_id ≡ i
  of : gap.obligation_id ≡ o
  required :
      (c : Text) → Memᴰ c gap.required_control_types ↔ Memᴰ c (obligation_needs session org_id o)
  some_required : gap.required_control_types ≢ []
  uncovered :
      (c : Text)
      → Memᴰ c gap.required_control_types
      → ¬ Memᴰ c (linked_control_types session org_id i)
  no_linked : gap.linked_control_types ≡ []

sorted_ne_nil : (x : Text) (xs : List Text) → sorted text_le (x ∷ xs) ≢ []
sorted_ne_nil x xs e =
    Memᴰ.not-nil (subst (λ l. Memᴰ x l) e ((mem-sorted text_le x (x ∷ xs)).1 (Memᴰ.head refl)))

module _ (session : Session) (org_id : ℕ) (i o : Text) where
  -- The entry that the loop makes.
  entry :
      (r : Text) (required : List Text)
      → obligation_needs session org_id o ≡ r ∷ required
      → keep_if (λ c. contains c (linked_control_types session org_id i)) (r ∷ required) ≡ []
      → IsEntry session org_id i o (record {
        ai_system_id = i;
        obligation_id = o;
        required_control_types = sorted text_le (r ∷ required);
        linked_control_types = sorted text_le [];
      })
  unfolding sorted
  entry r required needed kept =
      let linked = linked_control_types session org_id i in
      record {
        named = refl;
        of = refl;
        required = λ c. rw needed (mem-sorted text_le c (r ∷ required));
        some_required = sorted_ne_nil r required;
        uncovered = λ c m there. Memᴰ.not-nil (
            subst (λ l. Memᴰ c l) kept
              ((mem-keep_if (λ x. contains x linked) c (r ∷ required)).1
                ((mem-sorted text_le c (r ∷ required)).0 m, (contains_iff c linked).1 there)));
        no_linked = refl;
      }

  reported :
      (required covering : List Text) (gaps : List Gap) (gap : Gap)
      → obligation_needs session org_id o ≡ required
      → keep_if (λ c. contains c (linked_control_types session org_id i)) required ≡ covering
      → Memᴰ gap (report_gap i o required covering gaps)
      → IsEntry session org_id i o gap ⊎ Memᴰ gap gaps
  unfolding report_gap
  reported [] covering gaps gap needed kept m = inr m
  reported (r ∷ required) (c ∷ covering) gaps gap needed kept m = inr m
  reported (r ∷ required) [] gaps gap needed kept m = elim (Memᴰ.cases_cons m) [
    | inr m' ↦ inr m'
    | inl e ↦ inl (subst (IsEntry session org_id i o) (sym e) (entry r required needed kept))
  ]

of_obligation :
    (session : Session) (org_id : ℕ) (i : Text) (obligations : List Text) (gap : Gap)
    → Memᴰ gap (gaps_of_obligations session org_id i obligations)
    → (o : Text) × Memᴰ o obligations × IsEntry session org_id i o gap
unfolding gaps_of_obligations
of_obligation session org_id i [] gap m = absurd (Memᴰ.not-nil m)
of_obligation session org_id i (o ∷ obligations) gap m =
    elim (reported session org_id i o _ _ _ gap refl refl m) [
      | inl here ↦ (o, Memᴰ.head refl, here)
      | inr later ↦
          let (p, at, is) = of_obligation session org_id i obligations gap later in
          (p, Memᴰ.tail at, is)
    ]

of_latest :
    (session : Session) (org_id : ℕ) (i : Text) (latest : Option TraversalResult) (gap : Gap)
    → Memᴰ gap (gaps_of_system session org_id i latest)
    → (r : TraversalResult) × (o : Text) × (latest ≡ some r)
      × Memᴰ o r.derived_obligations
      × IsEntry session org_id i o gap
unfolding gaps_of_system
of_latest session org_id i none gap m = absurd (Memᴰ.not-nil m)
of_latest session org_id i (some r) gap m =
    let (o, at, is) = of_obligation session org_id i r.derived_obligations gap m in
    (r, o, refl, at, is)

of_system :
    (session : Session) (org_id : ℕ) (nodes : List GovernanceGraphNode) (gap : Gap)
    → Memᴰ gap (gaps_of_systems session org_id nodes)
    → (n : GovernanceGraphNode) × Memᴰ n nodes
      × Memᴰ gap (
          gaps_of_system session org_id n.node_key
            (latest_result org_id n.node_key session.results))
unfolding gaps_of_systems
of_system session org_id [] gap m = absurd (Memᴰ.not-nil m)
of_system session org_id (n ∷ nodes) gap m =
    let latest = latest_result org_id n.node_key session.results in
    elim ((mem-append gap (gaps_of_system session org_id n.node_key latest)
        (gaps_of_systems session org_id nodes)).0
      m) [
        | inl here ↦ (n, Memᴰ.head refl, here)
        | inr later ↦
            let (k, at, is) = of_system session org_id nodes gap later in (k, Memᴰ.tail at, is)
      ]

-- A gap is sound: it is that of a system of the organisation that is not archived, and of an obligation
-- in the system's last result; it lists exactly the control types that active edges of the organisation
-- say the obligation needs, at least one; no link of the system is to one of them; and its list of
-- linked control types is empty.
pub record IsSound (session : Session) (org_id : ℕ) (gap : Gap) : Type 0 where
  pub system : GovernanceGraphNode
  pub in_table : Memᴰ system session.nodes
  pub in_org : system.org_id ≡ org_id
  pub is_system : system.node_type ≡ node_ai_system
  pub not_archived : system.archived ≡ false
  pub named : gap.ai_system_id ≡ system.node_key
  pub latest : TraversalResult
  pub is_latest : IsLatest org_id gap.ai_system_id session.results latest
  pub derived : Memᴰ gap.obligation_id latest.derived_obligations
  pub required :
      (c : Text) → Memᴰ c gap.required_control_types ↔ NeedsRow session org_id gap.obligation_id c
  pub some_required : gap.required_control_types ≢ []
  pub uncovered :
      (c : Text) → Memᴰ c gap.required_control_types → ¬ LinkRow session org_id gap.ai_system_id c
  pub no_linked : gap.linked_control_types ≡ []

-- Let the ids of the nodes be unique. Every gap that is reported is sound: it is that of a system of the
-- organisation that is not archived, and of an obligation in the system's last result; it lists
-- exactly the control types that active edges of the organisation say the obligation needs, at least
-- one; no link of the system is to one of them; and its list of linked control types is empty.
pub find_coverage_gaps-IsSound :
    (session : Session) (org_id : ℕ) (gap : Gap)
    → Distinct (map (λ n. n.id) session.nodes)
    → Memᴰ gap (find_coverage_gaps session org_id)
    → IsSound session org_id gap
unfolding find_coverage_gaps
find_coverage_gaps-IsSound session org_id gap ids m =
    let selects = λ (n : GovernanceGraphNode).
      (n.org_id == org_id) && (n.node_type == node_ai_system) && not n.archived in
    let (n, kept, reports) = of_system session org_id (keep_if selects session.nodes) gap m in
    let (there, fits) = (mem-keep_if selects n session.nodes).0 kept in
    let (r, o, last, derived, is) =
      of_latest session org_id n.node_key (latest_result org_id n.node_key session.results) gap
        reports in
    record {
      system = n;
      in_table = there;
      in_org = ground (arith, fits, eq_iff n.org_id org_id);
      is_system = ground (arith, fits, eq_iff n.node_type node_ai_system);
      not_archived = ground (arith, fits);
      named = is.named;
      latest = r;
      is_latest =
          subst (λ i. IsLatest org_id i session.results r) (sym is.named)
            (latest_result-IsLatest org_id n.node_key session.results r last);
      derived = subst (λ k. Memᴰ k r.derived_obligations) (sym is.of) derived;
      required = λ c.
          subst (λ k. Memᴰ c gap.required_control_types ↔ NeedsRow session org_id k c) (sym is.of)
            (Iff.trans (is.required c) (mem-obligation_needs session org_id o c ids));
      some_required = is.some_required;
      uncovered = λ c listed linked. is.uncovered c listed (
          (mem-linked_control_types session org_id n.node_key c).1
            (subst (λ i. LinkRow session org_id i c) is.named linked));
      no_linked = is.no_linked;
    }
