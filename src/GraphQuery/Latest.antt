-- ===== src/GraphQuery/Latest.antt =====
-- core-side-patch/graph_query.py, `find_coverage_gaps`: the links and the last result of a system, against
-- the rows of the tables.
use mathlib.Core.List.Memᴰ
use p2_ai_knowledge_graph_fo.Base.{
  ℕ, ◌≡◌, refl, sym, ap, subst, ◌∙◌, ◌↔◌, ◌⊎◌, inl, inr, Bool, true, ◌&&◌, List, [], ◌∷◌, ◌++◌,
  Option, none, some, some-injective, Option-cases, Text, Memᴰ, keep_if, mem-keep_if, ◌==◌, eq_iff,
  nat_eq, list_eq, arith, Bool-cases, mem-to_set,
}
use p2_ai_knowledge_graph_fo.Tables.{Session, TraversalResult, ObligationLink, existing_links}
use p2_ai_knowledge_graph_fo.GraphQuery.{latest_result, control_types_of, linked_control_types}

-- A link row of the organisation joins the system to the control type.
abbrev pub LinkRow : Session → ℕ → Text → Text → Type 0
LinkRow session org_id i c =
    (l : ObligationLink) × Memᴰ l session.links
    × (l.org_id ≡ org_id)
    × (l.ai_system_id ≡ i)
    × (l.control_type_id ≡ some c)

-- The last result of the system in the organisation.
abbrev pub IsLatest : ℕ → Text → List TraversalResult → TraversalResult → Type 0
IsLatest org_id i results r =
    (before : List TraversalResult) × (later : List TraversalResult) × (results
      ≡ before ++ r ∷ later)
    × (r.org_id ≡ org_id)
    × (r.ai_system_id ≡ i)
    × ((q : TraversalResult) → Memᴰ q later → q.org_id ≡ org_id → ¬ (q.ai_system_id ≡ i))

mem-listed :
    (c : Text) (o : Option Text) (rest : List Text)
    → Memᴰ c (elim o [ none ↦ rest | some d ↦ d ∷ rest ]) ↔ ((o ≡ some c) ⊎ Memᴰ c rest)
mem-listed c none rest = (inr, λ m. elim m [ inl e ↦ cc e | inr later ↦ later ])
mem-listed c (some d) rest = (
  λ m. elim (Memᴰ.cases_cons m) [ inl e ↦ inl (ap some (sym e)) | inr later ↦ inr later ],
  λ m. elim m [ inl e ↦ Memᴰ.head (sym (some-injective _ _ e)) | inr later ↦ Memᴰ.tail later ],
)

mem-control_types_of :
    (c : Text) (links : List ObligationLink)
    → Memᴰ c (control_types_of links)
      ↔ ((l : ObligationLink) × Memᴰ l links × (l.control_type_id ≡ some c))
unfolding control_types_of
mem-control_types_of c [] = (λ m. absurd (Memᴰ.not-nil m), λ (l, m, _). absurd (Memᴰ.not-nil m))
mem-control_types_of c (l ∷ links) =
    let (to, from) = mem-control_types_of c links in
    let (one_to, one_from) = mem-listed c l.control_type_id (control_types_of links) in
    (
      λ m. elim (one_to m) [
        | inl e ↦ (l, Memᴰ.head refl, e)
        | inr later ↦ let (k, at, e) = to later in (k, Memᴰ.tail at, e)
      ],
      λ (k, at, e). elim (Memᴰ.cases_cons at) [
        | inl q ↦ one_from (inl (ap (λ (h : ObligationLink). h.control_type_id) (sym q) ∙ e))
        | inr later ↦ one_from (inr (from (k, later, e)))
      ],
    )

abbrev matching : ℕ → Text → TraversalResult → Bool
matching org_id i r = (r.org_id == org_id) && (r.ai_system_id == i)

latest_result-none :
    (org_id : ℕ) (i : Text) (results : List TraversalResult)
    → latest_result org_id i results ≡ none
    → (q : TraversalResult) → Memᴰ q results
    → q.org_id ≡ org_id
    → ¬ (q.ai_system_id ≡ i)
unfolding latest_result
latest_result-none org_id i [] h q m o s = absurd (Memᴰ.not-nil m)
latest_result-none org_id i (r ∷ results) h q m o s =
    elim (Option-cases (latest_result org_id i results)) [
      | inr (l, e) ↦ cc (rw e at h)
      | inl e ↦ elim (Memᴰ.cases_cons m) [
        | inr later ↦ latest_result-none org_id i results e q later o s
        | inl p ↦
            let here : matching org_id i r ≡ true =
              subst (λ j. matching org_id i j ≡ true) p
                (ground (arith, o, s, eq_iff q.org_id org_id, eq_iff q.ai_system_id i)) in
            cc (rw (e, here) at h)
      ]
    ]

pub latest_result-IsLatest :
    (org_id : ℕ) (i : Text) (results : List TraversalResult) (r : TraversalResult)
    → latest_result org_id i results ≡ some r
    → IsLatest org_id i results r
unfolding latest_result
latest_result-IsLatest org_id i [] r h = cc h
latest_result-IsLatest org_id i (q ∷ results) r h =
    elim (Option-cases (latest_result org_id i results)) [
      | inr (s, e) ↦
          let same : s ≡ r = some-injective _ _ (rw e at h) in
          let (before, later, split, o, a, last) =
            latest_result-IsLatest org_id i results r (e ∙ ap some same) in
          (q ∷ before, later, ap (λ l. q ∷ l) split, o, a, last)
      | inl e ↦ elim (Bool-cases (matching org_id i q)) [
        | inr other ↦ cc (rw (e, other) at h)
        | inl here ↦
            let same : q ≡ r = some-injective _ _ (rw (e, here) at h) in
            (
              [],
              results,
              ap (λ l. l ∷ results) same,
              ap (λ (l : TraversalResult). l.org_id) (sym same)
                  ∙ (ground (arith, here, eq_iff q.org_id org_id)),
              ap (λ (l : TraversalResult). l.ai_system_id) (sym same)
                  ∙ (ground (arith, here, eq_iff q.ai_system_id i)),
              latest_result-none org_id i results e,
            )
      ]
    ]

pub mem-linked_control_types :
    (session : Session) (org_id : ℕ) (i c : Text)
    → Memᴰ c (linked_control_types session org_id i) ↔ LinkRow session org_id i c
unfolding linked_control_types existing_links
mem-linked_control_types session org_id i c =
    let of_system = λ (l : ObligationLink). (l.org_id == org_id) && (l.ai_system_id == i) in
    let kept = keep_if of_system session.links in
    let (to, from) = mem-control_types_of c kept in
    let (set_to, set_from) = mem-to_set c (control_types_of kept) in
    (
      λ m.
          let (l, at, e) = to (set_to m) in
          let (there, fits) = (mem-keep_if of_system l session.links).0 at in
          (
            l,
            there,
            ground (arith, fits, eq_iff l.org_id org_id),
            ground (arith, fits, eq_iff l.ai_system_id i),
            e,
          ),
      λ (l, there, in_org, named, e). set_from (
          from (
            l,
            (mem-keep_if of_system l session.links).1 (
              there,
              ground (arith, in_org, named, eq_iff l.org_id org_id, eq_iff l.ai_system_id i),
            ),
            e,
          )),
    )
