-- ===== src/Tables/Links.antt =====
-- core-side-patch/models.py, `upsert_ai_system_obligation_links`: pushed again, it adds nothing.
use mathlib.Core.List.Memᴰ
use p2_ai_knowledge_graph_fo.Base.{
  ℕ, ◌≡◌, refl, inl, inr, Bool, true, false, not, ◌&&◌, List, [], ◌∷◌, ◌++◌, Option, none, some,
  Text, keep_if, Memᴰ, ◌==◌, list_eq, nat_eq, eq_refl, arith, Bool-cases, mem-keep_if, mem-append,
}
use p2_ai_knowledge_graph_fo.Tables.{
  Session, ObligationLink, link, option_beq, existing_links, same_link, is_linked, links_to_add,
  upsert_ai_system_obligation_links,
}

option_beq_refl : (o : Option Text) → option_beq o o ≡ true
unfolding option_beq
option_beq_refl none = refl
option_beq_refl (some a) = eq_refl a

linked_of_mem :
    (l : ObligationLink) (ls : List ObligationLink)
    → Memᴰ l ls
    → is_linked ls l.obligation_id l.control_type_id ≡ true
unfolding is_linked same_link
linked_of_mem l [] m = absurd (Memᴰ.not-nil m)
linked_of_mem l (k ∷ ls) m = elim (Memᴰ.cases_cons m) [
  | inl e ↦
      rw (← e) (ground (arith, option_beq_refl l.obligation_id, option_beq_refl l.control_type_id))
  | inr m' ↦ ground (arith, linked_of_mem l ls m')
]

linked_by_more :
    (xs ys : List ObligationLink) (o c : Option Text)
    → is_linked xs o c ≡ true
    → is_linked (xs ++ ys) o c ≡ true
unfolding is_linked
linked_by_more [] ys o c h = cc h
linked_by_more (x ∷ xs) ys o c h = ground (arith, h, linked_by_more xs ys o c)

existing_links-append :
    (org : ℕ) (i : Text) (p : ObligationLink → Bool) (xs ys : List ObligationLink)
    → keep_if p (xs ++ ys) ≡ keep_if p xs ++ keep_if p ys
existing_links-append org i p [] ys = refl
existing_links-append org i p (x ∷ xs) ys = ground (arith, existing_links-append org i p xs ys)

none_left :
    {A : Type 0} (p : A → Bool) (xs : List A)
    → ((a : A) → Memᴰ a xs → p a ≡ false)
    → keep_if p xs ≡ []
none_left p [] h = refl
none_left p (x ∷ xs) h = rw (h x (Memᴰ.head refl)) (none_left p xs (λ a m. h a (Memᴰ.tail m)))

module _ (session : Session) (org : ℕ) (i : Text) (obligations controls : List Text) where
  abbrev after : Session
  after = record session {
    links = session.links ++ links_to_add session org i obligations controls;
  }

  -- A pair that is linked before, or that one of the rows to add links, is linked after.
  linked_after :
      (o c : Option Text)
      → (is_linked (existing_links session org i) o c ≡ false
          → Memᴰ (link org i o c) (links_to_add session org i obligations controls))
      → is_linked (existing_links after org i) o c ≡ true
  unfolding existing_links
  linked_after o c adds =
      let ours = λ (l : ObligationLink). (l.org_id == org) && (l.ai_system_id == i) in
      let added = links_to_add session org i obligations controls in
      elim (Bool-cases (is_linked (existing_links session org i) o c)) [
        | inl h ↦
            rw (existing_links-append org i ours session.links added)
              (linked_by_more (keep_if ours session.links) (keep_if ours added) o c h)
        | inr h ↦
            let row = link org i o c in
            let there = (mem-append row session.links added).1 (inr (adds h)) in
            let own : ours row ≡ true = simp (eq_refl) in
            linked_of_mem row (keep_if ours (session.links ++ added))
              ((mem-keep_if ours row (session.links ++ added)).1 (there, own))
      ]

  obligation_linked :
      (o : Text) → Memᴰ o obligations → is_linked (existing_links after org i) (some o) none ≡ true
  unfolding links_to_add
  obligation_linked o m = linked_after (some o) none (λ h. (mem-append _ _ _).1 (
      inl (
        Memᴰ.map (λ x. link org i (some x) none) ((mem-keep_if _ o obligations).1 (m, rw h refl)))))

  control_linked :
      (c : Text) → Memᴰ c controls → is_linked (existing_links after org i) none (some c) ≡ true
  unfolding links_to_add
  control_linked c m = linked_after none (some c) (λ h. (mem-append _ _ _).1 (
      inr (Memᴰ.map (λ x. link org i none (some x)) ((mem-keep_if _ c controls).1 (m, rw h refl)))))

  nothing_to_add : links_to_add after org i obligations controls ≡ []
  unfolding links_to_add
  nothing_to_add =
      rw
        (
          none_left (λ o. not (is_linked (existing_links after org i) (some o) none)) obligations
              (λ o m. rw (obligation_linked o m) refl),
          none_left (λ c. not (is_linked (existing_links after org i) none (some c))) controls
              (λ c m. rw (control_linked c m) refl),
        )
        refl

-- To write the links of the same derivation a second time adds no row.
pub upsert_links-idempotent :
    (session : Session) (org_id : ℕ) (ai_system_id : Text) (obligations controls : List Text)
    → (upsert_ai_system_obligation_links
        (upsert_ai_system_obligation_links session org_id ai_system_id obligations controls).0
        org_id
        ai_system_id
        obligations
        controls).1
      ≡ []
unfolding upsert_ai_system_obligation_links
upsert_links-idempotent session org_id ai_system_id obligations controls =
    nothing_to_add session org_id ai_system_id obligations controls
