-- ===== src/Tables/Upsert/Single.antt =====
-- core-side-patch/models.py: `query.one_or_none()` where at most one row matches.
use mathlib.Core.List.Memᴰ
use p2_ai_knowledge_graph_fo.Base.{
  ℕ, ◌≡◌, refl, sym, ap, ◌∙◌, ◌⊎◌, inl, inr, Bool, true, false, List, [], ◌∷◌, map, keep_if, any,
  any-eq-true, Memᴰ, Distinct, Bool-cases,
}

module _ {A : Type 0} (p : A → Bool) where
  pub keep_if-none : (xs : List A) → ((a : A) → Memᴰ a xs → p a ≡ false) → keep_if p xs ≡ []
  keep_if-none [] h = refl
  keep_if-none (x ∷ xs) h = rw (h x (Memᴰ.head refl)) (keep_if-none xs (λ a m. h a (Memᴰ.tail m)))

  module _ (id_of : A → ℕ) where
    keep_if-only :
        (xs : List A) (a : A)
        → Distinct (map id_of xs)
        → ((b : A) → Memᴰ b xs → p b ≡ true → id_of b ≡ id_of a)
        → Memᴰ a xs
        → p a ≡ true
        → keep_if p xs ≡ a ∷ []
    keep_if-only [] a d same m h = absurd (Memᴰ.not-nil m)
    keep_if-only (x ∷ xs) a d same m h = elim (Memᴰ.cases_cons m) [
      | inl e ↦
          let others = keep_if-none xs (λ b later. elim (Bool-cases (p b)) [
            | inr off ↦ off
            | inl on ↦ absurd (
                d.0 (
                  Memᴰ.cast (sym (same b (Memᴰ.tail later) on ∙ ap id_of e))
                    (Memᴰ.map id_of later)))
          ]) in
          rw (sym (ap p e) ∙ h, others, e) refl
      | inr later ↦ elim (Bool-cases (p x)) [
        | inl on ↦ absurd (d.0 (Memᴰ.cast (same x (Memᴰ.head refl) on) (Memᴰ.map id_of later)))
        | inr off ↦ rw off (keep_if-only xs a d.1 (λ b n. same b (Memᴰ.tail n)) later h)
      ]
    ]

    -- Where rows that match have one id, and no two rows have the same, none matches or one does.
    pub keep_if-single :
        (xs : List A)
        → Distinct (map id_of xs)
        → ((a b : A) → Memᴰ a xs → Memᴰ b xs → p a ≡ true → p b ≡ true → id_of a ≡ id_of b)
        → (((a : A) → Memᴰ a xs → p a ≡ false) × (keep_if p xs ≡ []))
          ⊎ ((a : A) × Memᴰ a xs × (p a ≡ true) × (keep_if p xs ≡ a ∷ []))
    keep_if-single xs d same = elim (Bool-cases (any p xs)) [
      | inl some_match ↦
          let (a, m, h) = (any-eq-true p xs).0 some_match in
          inr (a, m, h, keep_if-only xs a d (λ b n on. same b a n m on h) m h)
      | inr none_match ↦
          let off = λ (a : A) (m : Memᴰ a xs). elim (Bool-cases (p a)) as (λ b. p a ≡ false) [
            | inl on ↦ cc (none_match, (any-eq-true p xs).1 (a, m, on))
            | inr off ↦ off
          ] in
          inl (off, keep_if-none xs off)
    ]

-- Rows of one id are one row.
pub same_of_id :
    {A : Type 0} (id_of : A → ℕ) (xs : List A) (a b : A)
    → Distinct (map id_of xs)
    → Memᴰ a xs
    → Memᴰ b xs
    → id_of a ≡ id_of b
    → a ≡ b
same_of_id id_of [] a b d in_a in_b same = absurd (Memᴰ.not-nil in_a)
same_of_id id_of (x ∷ xs) a b d in_a in_b same = elim (Memᴰ.cases_cons in_a) [
  | inl e ↦ elim (Memᴰ.cases_cons in_b) [
    | inl e' ↦ e ∙ sym e'
    | inr later ↦ absurd (d.0 (Memᴰ.cast (sym (ap id_of e) ∙ same) (Memᴰ.map id_of later)))
  ]
  | inr later ↦ elim (Memᴰ.cases_cons in_b) [
    | inl e' ↦ absurd (d.0 (Memᴰ.cast (sym (ap id_of e') ∙ sym same) (Memᴰ.map id_of later)))
    | inr later' ↦ same_of_id id_of xs a b d.1 later later' same
  ]
]
