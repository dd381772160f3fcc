-- ===== src/KnowledgeRouter/Pages.antt =====
-- core-side-patch/routers/patent_knowledge_graph_p2.py: the pages of browse_nodes.
use p2_ai_knowledge_graph_fo.Base.{
  ℕ, zero, suc, ◌+◌, ◌-◌, ◌*◌, ◌≤◌, ◌≡◌, refl, sym, ap, ◌∙◌, true, not, ◌&&◌, List, [], ◌∷◌, ◌++◌,
  map, Option, some, Text, length, length-map, take, drop, keep_if, leb, Bool, sorted,
  insert_sorted, arith, ◌==◌, nat_eq,
}
use p2_ai_knowledge_graph_fo.Tables.{GovernanceGraphNode}
use p2_ai_knowledge_graph_fo.GraphQuery.{node_to_dict, has_type, list_nodes}
use p2_ai_knowledge_graph_fo.GraphQuery.Search.{NodeDict}
use p2_ai_knowledge_graph_fo.KnowledgeRouter.{Governance, Envelope, envelope, browse_nodes}

-- What a listing without pages would show, in the order of the ids.
abbrev pub listing : Governance → ℕ → Option Text → List NodeDict
listing g org_id node_type = map node_to_dict (
    sorted (λ n m. leb n.id m.id)
      (keep_if (λ n. (n.org_id == org_id) && not n.archived && has_type node_type n)
        g.session.nodes))

length-insert_sorted :
    {A : Type 0} (le : A → A → Bool) (a : A) (xs : List A)
    → length (insert_sorted le a xs) ≡ suc (length xs)
unfolding insert_sorted
length-insert_sorted le a [] = refl
length-insert_sorted le a (x ∷ xs) = ground (arith, length-insert_sorted le a xs)

length-sorted : {A : Type 0} (le : A → A → Bool) (xs : List A) → length (sorted le xs) ≡ length xs
unfolding sorted
length-sorted le [] = refl
length-sorted le (x ∷ xs) = length-insert_sorted le x (sorted le xs) ∙ ap suc (length-sorted le xs)

map-take : {A B : Type 0} (f : A → B) (n : ℕ) (xs : List A) → map f (take n xs) ≡ take n (map f xs)
map-take f zero xs = refl
map-take f (suc n) [] = refl
map-take f (suc n) (x ∷ xs) = ap (λ ys. f x ∷ ys) (map-take f n xs)

window :
    {A B : Type 0} (f : A → B) (k s : ℕ) (xs : List A)
    → take k (map f xs) ++ map f (take s (drop k xs)) ≡ take (k + s) (map f xs)
window f zero s xs = let same : 0 + s ≡ s = omega arith in rw same (map-take f s xs)
window f (suc k) zero [] = let same : suc k + 0 ≡ suc k = omega arith in rw same refl
window f (suc k) (suc s) [] =
    let same : suc k + suc s ≡ suc (k + suc s) = omega arith in rw same refl
window f (suc k) s (x ∷ xs) =
    let same : suc k + s ≡ suc (k + s) = omega arith in
    rw same (ap (λ ys. f x ∷ ys) (window f k s xs))

length-take-le : {A : Type 0} (n : ℕ) (xs : List A) → length (take n xs) ≤ n
length-take-le zero xs = omega arith
length-take-le (suc n) [] = omega arith
length-take-le (suc n) (x ∷ xs) = omega (arith, length-take-le n xs)

page_end : (page page_size : ℕ) → 1 ≤ page → (page - 1) * page_size + page_size ≡ page * page_size
page_end zero page_size h = absurd (omega arith)
page_end (suc page) page_size h = grind arith

-- With a page from 1 and a page size from 1 to 200, browse_nodes answers with the number of all nodes
-- that match, and with a page of at most `page_size` nodes, which after the pages before it gives
-- the first `page * page_size` nodes of the whole listing by id: no node is shown twice or left out.
pub browse_nodes-continues :
    (g : Governance) (org_id : ℕ) (node_type : Option Text) (page page_size : ℕ)
    → 1 ≤ page
    → 1 ≤ page_size
    → page_size ≤ 200
    → (shown : Envelope NodeDict) × (browse_nodes g org_id node_type page page_size ≡ some shown)
      × (shown.total ≡ length (listing g org_id node_type))
      × (shown.count ≡ length shown.items)
      × (shown.count ≤ page_size)
      × (take ((page - 1) * page_size) (listing g org_id node_type) ++ shown.items
          ≡ take (page * page_size) (listing g org_id node_type))
unfolding browse_nodes list_nodes envelope
browse_nodes-continues g org_id node_type page page_size from small large =
    let selected =
      keep_if
        (λ (n : GovernanceGraphNode).
          (n.org_id == org_id) && not n.archived && has_type node_type n)
        g.session.nodes in
    let in_order = λ (n m : GovernanceGraphNode). leb n.id m.id in
    let rows = sorted in_order selected in
    let items = map node_to_dict (take page_size (drop ((page - 1) * page_size) rows)) in
    let valid : (leb 1 page && leb 1 page_size && leb page_size 200) ≡ true = ground arith in
    (
      record { items = items; count = length items; total = length selected },
      rw valid refl,
      sym (length-map node_to_dict rows ∙ length-sorted in_order selected),
      refl,
      omega (
        arith,
        length-map node_to_dict (take page_size (drop ((page - 1) * page_size) rows)),
        length-take-le page_size (drop ((page - 1) * page_size) rows),
      ),
      window node_to_dict ((page - 1) * page_size) page_size rows
          ∙ ap (λ k. take k (map node_to_dict rows)) (page_end page page_size from),
    )
