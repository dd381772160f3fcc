-- ===== src/GraphBuilder/Ready.antt =====
-- src/p2_satellite/graph_builder.py: build_graph adds the two ends of an edge before the edge.
use mathlib.Core.List.Memᴰ
use p2_ai_knowledge_graph_fo.Base.{refl, inl, inr, List, [], ◌∷◌, ◌++◌, Text, Memᴰ, list_eq, nat_eq}
use p2_ai_knowledge_graph_fo.Schema.{node_obligation, node_control_type, edge_obligation_needs}
use p2_ai_knowledge_graph_fo.GraphBuilder.{
  Exports, ObligationItem, RegulationItem, JurisdictionItem, AiSystemItem, Call, node, edge,
  for_each, linked, linked_from, calls_of_jurisdiction, calls_of_obligation, calls_of_regulation,
  calls_of_risk_tier, calls_of_ai_system, calls_of,
}

-- Every edge is added after both its ends: `known` holds the nodes that were added before.
unfoldable pub Ready : List (Text × Text) → List Call → Type 0
Ready known [] = Unit
Ready known (node t k ∷ calls) = Ready ((t, k) ∷ known) calls
Ready known (edge t a b ∷ calls) = Memᴰ a known × Memᴰ b known × Ready known calls

Ready-more :
    (known known' : List (Text × Text)) (calls : List Call)
    → ((a : Text × Text) → Memᴰ a known → Memᴰ a known')
    → Ready known calls
    → Ready known' calls
unfolding Ready
Ready-more known known' [] sub r = tt
Ready-more known known' (node t k ∷ calls) sub r =
    Ready-more ((t, k) ∷ known) ((t, k) ∷ known') calls
      (λ a m. elim (Memᴰ.cases_cons m) [
        | inl e ↦ Memᴰ.head e
        | inr later ↦ Memᴰ.tail (sub a later)
      ])
      r
Ready-more known known' (edge t a b ∷ calls) sub (from, to, r) =
    (sub a from, sub b to, Ready-more known known' calls sub r)

Ready-append :
    (known : List (Text × Text)) (s t : List Call)
    → Ready known s
    → Ready known t
    → Ready known (s ++ t)
unfolding Ready
Ready-append known [] t r r' = r'
Ready-append known (node n k ∷ s) t r r' =
    Ready-append ((n, k) ∷ known) s t r
      (Ready-more known ((n, k) ∷ known) t (λ a m. Memᴰ.tail m) r')
Ready-append known (edge n a b ∷ s) t (from, to, r) r' = (from, to, Ready-append known s t r r')

Ready-for_each :
    {A : Type 0} (known : List (Text × Text)) (xs : List A) (body : A → List Call)
    → ((x : A) → Ready known (body x))
    → Ready known (for_each xs body)
unfolding for_each Ready
Ready-for_each known [] body each = tt
Ready-for_each known (x ∷ xs) body each =
    Ready-append known (body x) (for_each xs body) (each x) (Ready-for_each known xs body each)

Ready-linked :
    (known : List (Text × Text)) (t : Text) (source target : Text × Text)
    → Memᴰ source known
    → Ready known (linked t source target)
unfolding linked Ready
Ready-linked known t source target m = (Memᴰ.tail m, Memᴰ.head refl, tt)

Ready-linked_from :
    (known : List (Text × Text)) (t : Text) (source target : Text × Text)
    → Memᴰ target known
    → Ready known (linked_from t source target)
unfolding linked_from Ready
Ready-linked_from known t source target m = (Memᴰ.head refl, Memᴰ.tail m, tt)

Ready-obligation :
    (known : List (Text × Text)) (t : Text) (source : Text × Text) (ob : ObligationItem)
    → Memᴰ source known
    → Ready known (calls_of_obligation t source ob)
unfolding calls_of_obligation linked Ready
Ready-obligation known t source ob m = (
  Memᴰ.tail m,
  Memᴰ.head refl,
  Ready-for_each ((node_obligation, ob.key) ∷ known) ob.needs_controls _ (λ c.
      Ready-linked ((node_obligation, ob.key) ∷ known) edge_obligation_needs
        (node_obligation, ob.key) (node_control_type, c) (Memᴰ.head refl)),
)

Ready-node :
    (known : List (Text × Text)) (t k : Text) (calls : List Call)
    → Ready ((t, k) ∷ known) calls
    → Ready known (node t k ∷ calls)
unfolding Ready
Ready-node known t k calls r = r

Ready-jurisdiction : (j : JurisdictionItem) → Ready [] (calls_of_jurisdiction j)
unfolding calls_of_jurisdiction
Ready-jurisdiction j =
    Ready-node _ _ _ _ (Ready-for_each _ _ _ (λ r. Ready-linked _ _ _ _ (Memᴰ.head refl)))

Ready-regulation : (reg : RegulationItem) → Ready [] (calls_of_regulation reg)
unfolding calls_of_regulation
Ready-regulation reg = Ready-node _ _ _ _ (
    Ready-append _ _ _ (Ready-for_each _ _ _ (λ c. Ready-linked_from _ _ _ _ (Memᴰ.head refl)))
      (Ready-for_each _ _ _ (λ ob. Ready-obligation _ _ _ ob (Memᴰ.head refl))))

Ready-risk_tier : (tier : Text × List ObligationItem) → Ready [] (calls_of_risk_tier tier)
unfolding calls_of_risk_tier
Ready-risk_tier (key, obligations) =
    Ready-node _ _ _ _ (Ready-for_each _ _ _ (λ ob. Ready-obligation _ _ _ ob (Memᴰ.head refl)))

Ready-ai_system : (s : AiSystemItem) → Ready [] (calls_of_ai_system s)
unfolding calls_of_ai_system
Ready-ai_system s = Ready-node _ _ _ _ (
    Ready-append _ _ _
      (Ready-append _ _ _ (Ready-for_each _ _ _ (λ c. Ready-linked _ _ _ _ (Memᴰ.head refl)))
        (Ready-for_each _ _ _ (λ j. Ready-linked _ _ _ _ (Memᴰ.head refl))))
      (Ready-linked _ _ _ _ (Memᴰ.head refl)))

pub Ready-calls_of : (x : Exports) → Ready [] (calls_of x)
unfolding calls_of
Ready-calls_of x =
    Ready-append _ _ _
      (Ready-append _ _ _
        (Ready-append _ _ _ (Ready-for_each _ _ _ Ready-jurisdiction)
          (Ready-for_each _ _ _ Ready-regulation))
        (Ready-for_each _ _ _ Ready-risk_tier))
      (Ready-for_each _ _ _ Ready-ai_system)
