-- ===== src/GraphBuilder/Calls.antt =====
-- src/p2_satellite/graph_builder.py: the edges that build_graph adds, by what the exports say.
use mathlib.Core.List.Memᴰ
use p2_ai_knowledge_graph_fo.Base.{
  ◌≡◌, refl, sym, subst, ◌↔◌, inl, inr, ⊎_elim, true, List, [], ◌∷◌, ◌++◌, Text, Memᴰ, mem-append,
  contains, list_beq, list_eq, nat_eq,
}
use p2_ai_knowledge_graph_fo.Schema.{
  node_types, node_ai_system, node_regulation, node_jurisdiction, node_data_category,
  node_control_type, node_obligation, node_risk_tier, edge_system_uses, edge_system_deploys_in,
  edge_data_triggers, edge_jurisdiction_has, edge_regulation_requires, edge_obligation_needs,
  edge_system_classified_as, edge_risk_tier_adds,
}
use p2_ai_knowledge_graph_fo.GraphBuilder.{
  ObligationItem, RegulationItem, JurisdictionItem, AiSystemItem, Exports, Call, node, edge,
  for_each, linked, linked_from, calls_of_jurisdiction, calls_of_obligation, calls_of_regulation,
  calls_of_risk_tier, calls_of_ai_system, calls_of,
}

-- An obligation's edges under what requires it.
pub data OfObligation (edge_type : Text) (source : Text × Text) (ob : ObligationItem)
    : Text → Text × Text → Text × Text → Type 0 where
  required : OfObligation edge_type source ob edge_type source (node_obligation, ob.key)
  needed :
      {c : Text}
      → Memᴰ c ob.needs_controls
      → OfObligation edge_type source ob edge_obligation_needs
          (node_obligation, ob.key)
          (node_control_type, c)

-- The edges of the exports: type, source, target.
pub data Exported (x : Exports) : Text → Text × Text → Text × Text → Type 0 where
  jurisdiction_has :
      {j : JurisdictionItem} {r : Text}
      → Memᴰ j x.jurisdictions
      → Memᴰ r j.regulations
      → Exported x edge_jurisdiction_has (node_jurisdiction, j.key) (node_regulation, r)
  data_triggers :
      {reg : RegulationItem} {d : Text}
      → Memᴰ reg x.regulations
      → Memᴰ d reg.triggered_by_data_categories
      → Exported x edge_data_triggers (node_data_category, d) (node_regulation, reg.key)
  regulation_requires :
      {reg : RegulationItem} {ob : ObligationItem} {t : Text} {a b : Text × Text}
      → Memᴰ reg x.regulations
      → Memᴰ ob reg.requires_obligations
      → OfObligation edge_regulation_requires (node_regulation, reg.key) ob t a b
      → Exported x t a b
  risk_tier_adds :
      {tier : Text × List ObligationItem} {ob : ObligationItem} {t : Text} {a b : Text × Text}
      → Memᴰ tier x.risk_tier_obligations
      → Memᴰ ob tier.1
      → OfObligation edge_risk_tier_adds (node_risk_tier, tier.0) ob t a b
      → Exported x t a b
  system_uses :
      {s : AiSystemItem} {d : Text}
      → Memᴰ s x.ai_systems
      → Memᴰ d s.data_categories
      → Exported x edge_system_uses (node_ai_system, s.id) (node_data_category, d)
  system_deploys_in :
      {s : AiSystemItem} {j : Text}
      → Memᴰ s x.ai_systems
      → Memᴰ j s.geographic_scope
      → Exported x edge_system_deploys_in (node_ai_system, s.id) (node_jurisdiction, j)
  system_classified_as :
      {s : AiSystemItem}
      → Memᴰ s x.ai_systems
      → Exported x edge_system_classified_as (node_ai_system, s.id) (node_risk_tier, s.risk_tier)

-- Where a call adds an edge, `P` holds of it; where it adds a node, its type is known.
abbrev pub OnEdges : (Text → Text × Text → Text × Text → Type 0) → Call → Type 0
OnEdges P (node t k) = contains t node_types ≡ true
OnEdges P (edge t a b) = P t a b

module _ {A : Type 0} where
  pub mem-for_each :
      (c : Call) (xs : List A) (body : A → List Call)
      → Memᴰ c (for_each xs body) ↔ ((a : A) × Memᴰ a xs × Memᴰ c (body a))
  unfolding for_each
  mem-for_each c [] body = (λ m. absurd (Memᴰ.not-nil m), λ t. absurd (Memᴰ.not-nil t.1))
  mem-for_each c (x ∷ xs) body =
      let (to, from) = mem-for_each c xs body in
      let (split_to, split_from) = mem-append c (body x) (for_each xs body) in
      (
        λ m. elim (split_to m) [
          | inl here ↦ (x, Memᴰ.head refl, here)
          | inr later ↦ let (a, m', in_body) = to later in (a, Memᴰ.tail m', in_body)
        ],
        λ (a, m, in_body). elim (Memᴰ.cases_cons m) [
          | inl e ↦ split_from (inl (subst (λ y. Memᴰ c (body y)) e in_body))
          | inr later ↦ split_from (inr (from (a, later, in_body)))
        ],
      )

module _ (P : Text → Text × Text → Text × Text → Type 0) where
  -- Every edge among the calls satisfies `P`.
  abbrev pub AllEdges : List Call → Type 0
  AllEdges calls = (c : Call) → Memᴰ c calls → OnEdges P c

  AllEdges-for_each :
      {A : Type 0} (xs : List A) (body : A → List Call)
      → ((a : A) → Memᴰ a xs → AllEdges (body a))
      → AllEdges (for_each xs body)
  AllEdges-for_each xs body each c m =
      let (a, in_xs, in_body) = (mem-for_each c xs body).0 m in each a in_xs c in_body

  AllEdges-append : (s t : List Call) → AllEdges s → AllEdges t → AllEdges (s ++ t)
  AllEdges-append s t in_s in_t c m = ⊎_elim (in_s c) (in_t c) ((mem-append c s t).0 m)

  AllEdges-node :
      (t k : Text) (calls : List Call)
      → contains t node_types ≡ true
      → AllEdges calls
      → AllEdges (node t k ∷ calls)
  AllEdges-node t k calls known rest c m = elim (Memᴰ.cases_cons m) [
    | inl e ↦ subst (OnEdges P) (sym e) known
    | inr later ↦ rest c later
  ]

  AllEdges-edge : (t : Text) (a b : Text × Text) → P t a b → AllEdges (edge t a b ∷ [])
  AllEdges-edge t a b p c m = subst (OnEdges P) (sym (Memᴰ.eq_of_singleton m)) p

  AllEdges-obligation :
      (t : Text) (source : Text × Text) (ob : ObligationItem)
      → ((t' : Text) (a b : Text × Text) → OfObligation t source ob t' a b → P t' a b)
      → AllEdges (calls_of_obligation t source ob)
  unfolding calls_of_obligation linked contains list_beq
  AllEdges-obligation t source ob p =
      AllEdges-append _ _
        (AllEdges-node _ _ _ refl
          (AllEdges-edge t source (node_obligation, ob.key) (p _ _ _ required)))
        (AllEdges-for_each ob.needs_controls _
          (λ c m. AllEdges-node _ _ _ refl (AllEdges-edge _ _ _ (p _ _ _ (needed m)))))

  -- What holds of the exports' edges holds of the calls.
  pub AllEdges-calls_of :
      (x : Exports)
      → ((t : Text) (a b : Text × Text) → Exported x t a b → P t a b)
      → AllEdges (calls_of x)
  unfolding calls_of calls_of_jurisdiction calls_of_regulation calls_of_risk_tier calls_of_ai_system
      linked linked_from contains list_beq
  AllEdges-calls_of x p =
      AllEdges-append _ _
        (AllEdges-append _ _
          (AllEdges-append _ _
            (AllEdges-for_each x.jurisdictions _ (λ j in_x. AllEdges-node _ _ _ refl (
              AllEdges-for_each j.regulations _ (λ r m.
                AllEdges-node _ _ _ refl
                  (AllEdges-edge _ _ _ (p _ _ _ (jurisdiction_has in_x m)))))))
            (AllEdges-for_each x.regulations _ (λ reg in_x. AllEdges-node _ _ _ refl (
              AllEdges-append _ _
                (AllEdges-for_each reg.triggered_by_data_categories _ (λ d m.
                  AllEdges-node _ _ _ refl (AllEdges-edge _ _ _ (p _ _ _ (data_triggers in_x m)))))
                (AllEdges-for_each reg.requires_obligations _ (λ ob m.
                  AllEdges-obligation _ _ ob
                    (λ t a b o. p t a b (regulation_requires in_x m o))))))))
          (AllEdges-for_each x.risk_tier_obligations _ (λ tier in_x. AllEdges-node _ _ _ refl (
            AllEdges-for_each tier.1 _ (λ ob m.
              AllEdges-obligation _ _ ob (λ t a b o. p t a b (risk_tier_adds in_x m o)))))))
        (AllEdges-for_each x.ai_systems _ (λ s in_x. AllEdges-node _ _ _ refl (
          AllEdges-append _ _
            (AllEdges-append _ _
              (AllEdges-for_each s.data_categories _ (λ d m.
                AllEdges-node _ _ _ refl (AllEdges-edge _ _ _ (p _ _ _ (system_uses in_x m)))))
              (AllEdges-for_each s.geographic_scope _ (λ j m.
                AllEdges-node _ _ _ refl
                  (AllEdges-edge _ _ _ (p _ _ _ (system_deploys_in in_x m))))))
            (AllEdges-node _ _ _ refl
              (AllEdges-edge _ _ _ (p _ _ _ (system_classified_as in_x)))))))
