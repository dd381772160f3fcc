-- ===== src/Scheduler/Chunks.antt =====
-- src/p2_satellite/scheduler.py: the chunks that a sweep is pushed in.
use Prim.Native.Nat.{max}
use mathlib.Core.List.Memᴰ
use p2_ai_knowledge_graph_fo.Base.{
  ℕ, zero, suc, ◌-◌, ◌≤◌, ◌≡◌, refl, ap, ◌∙◌, inl, inr, List, [], ◌∷◌, ◌++◌, length, take, drop,
  Memᴰ, arith,
}
use p2_ai_knowledge_graph_fo.Scheduler.{chunks_in, chunks}

-- The elements of the chunks, one chunk after the other.
abbrev pub flatten : {A : Type 0} → List (List A) → List A
flatten [] = []
flatten (c ∷ cs) = c ++ flatten cs

take-append-drop : {A : Type 0} (n : ℕ) (xs : List A) → take n xs ++ drop n xs ≡ xs
take-append-drop zero xs = refl
take-append-drop (suc n) [] = refl
take-append-drop (suc n) (x ∷ xs) = ap (λ ys. x ∷ ys) (take-append-drop n xs)

length-drop : {A : Type 0} (n : ℕ) (xs : List A) → length (drop n xs) ≡ length xs - n
length-drop zero xs = omega arith
length-drop (suc n) [] = omega arith
length-drop (suc n) (x ∷ xs) = omega (arith, length-drop n xs)

length-take-le : {A : Type 0} (n : ℕ) (xs : List A) → length (take n xs) ≤ n
length-take-le zero xs = omega arith
length-take-le (suc n) [] = omega arith
length-take-le (suc n) (x ∷ xs) = omega (arith, length-take-le n xs)

flatten-chunks_in :
    {A : Type 0} (fuel size : ℕ) (xs : List A)
    → 1 ≤ size
    → length xs ≤ fuel
    → flatten (chunks_in fuel size xs) ≡ xs
unfolding chunks_in
flatten-chunks_in zero size [] positive enough = refl
flatten-chunks_in zero size (x ∷ xs) positive enough = absurd (omega (arith, enough))
flatten-chunks_in (suc fuel) size [] positive enough = refl
flatten-chunks_in (suc fuel) size (x ∷ xs) positive enough =
    ap (λ ys. take size (x ∷ xs) ++ ys)
      (flatten-chunks_in fuel size (drop size (x ∷ xs)) positive
        (omega (arith, positive, enough, length-drop size (x ∷ xs))))
    ∙ take-append-drop size (x ∷ xs)

chunks_in-short :
    {A : Type 0} (fuel size : ℕ) (xs c : List A) → Memᴰ c (chunks_in fuel size xs) → length c ≤ size
unfolding chunks_in
chunks_in-short zero size xs c m = absurd (Memᴰ.not-nil m)
chunks_in-short (suc fuel) size [] c m = absurd (Memᴰ.not-nil m)
chunks_in-short (suc fuel) size (x ∷ xs) c m = elim (Memᴰ.cases_cons m) [
  | inl e ↦ omega (arith, ap length e, length-take-le size (x ∷ xs))
  | inr m' ↦ chunks_in-short fuel size (drop size (x ∷ xs)) c m'
]

-- The chunks hold what is pushed, once and in order, and none is longer than the chunk size, where a
-- size of 0 acts as 1.
pub chunks-exact :
    {A : Type 0} (size : ℕ) (xs : List A)
    → (flatten (chunks size xs) ≡ xs)
      × ((c : List A) → Memᴰ c (chunks size xs) → length c ≤ max 1 size)
unfolding chunks
chunks-exact size xs = (
  flatten-chunks_in (length xs) (max 1 size) xs (omega arith) (omega arith),
  chunks_in-short (length xs) (max 1 size) xs,
)
