-- ===== src/Base/Strings.antt =====
-- Python's `str` as the list of its code points, with the order that `sorted` uses.
use Prim.Native.Nat.{ℕ, zero, suc, ◌+◌, ◌/◌, ◌%◌}
use Prim.Native.Char.{code}
use Prim.Native.String.{String}
use mathlib.Core.Path.{◌≡◌}
use mathlib.Core.Logic.{◌⊎◌, inl, inr, ◌↔◌}
use mathlib.Core.Bool.{Bool, true, false, ◌&&◌, ◌||◌}
use mathlib.Core.Option.{Option, none, some}
use mathlib.Core.List.{List, [], ◌∷◌, Memᴰ}
use native.Mathlib.Omega.{arith}
use p2_ai_knowledge_graph_fo.Base.Tests.{ltb, leb, nat_beq, if◌then◌else◌, Bool-cases}
use p2_ai_knowledge_graph_fo.Base.Lists.{mem-cons}

abbrev pub Text : Type 0
Text = List ℕ

-- The text of a literal.
abbrev pub codes : String → Text
codes String.[] = []
codes (String.◌∷◌ c s) = code c ∷ codes s

-- `s <= t`: code points from the left, a prefix first.
unfoldable pub text_le : Text → Text → Bool
text_le [] _ = true
text_le (_ ∷ _) [] = false
text_le (a ∷ s) (b ∷ t) =
    let rest = text_le s t in if ltb a b then true else if nat_beq a b then rest else false

-- `t.partition(sep)` at the one character `sep`: what is before it, whether it is there, the rest.
unfoldable pub partition : ℕ → Text → Text × Bool × Text
partition sep [] = ([], false, [])
partition sep (c ∷ s) =
    let (before, found, after) = partition sep s in
    if nat_beq c sep then ([], true, s) else (c ∷ before, found, after)

module _ {ℓ} {A : Type ℓ} (le : A → A → Bool) where
  unfoldable pub insert_sorted : A → List A → List A
  insert_sorted a [] = a ∷ []
  insert_sorted a (x ∷ xs) =
      let rest = insert_sorted a xs in if le a x then a ∷ x ∷ xs else x ∷ rest

  -- `sorted(xs)` by the order `le`
  unfoldable pub sorted : List A → List A
  unfolding insert_sorted
  sorted [] = []
  sorted (x ∷ xs) = insert_sorted x (sorted xs)

  mem-insert_sorted : (a b : A) (xs : List A) → Memᴰ a (insert_sorted b xs) ↔ ((a ≡ b) ⊎ Memᴰ a xs)
  unfolding insert_sorted
  mem-insert_sorted a b [] = mem-cons a b []
  mem-insert_sorted a b (x ∷ xs) = elim (Bool-cases (le b x)) [
    | inl h ↦ rw h (mem-cons a b (x ∷ xs))
    | inr h ↦ rw h (
        ground
          (arith, mem-cons a x (insert_sorted b xs), mem-insert_sorted a b xs, mem-cons a x xs))
  ]

  pub mem-sorted : (a : A) (xs : List A) → Memᴰ a (sorted xs) ↔ Memᴰ a xs
  unfolding sorted
  mem-sorted a [] = (λ m. m, λ m. m)
  mem-sorted a (x ∷ xs) =
      ground (arith, mem-insert_sorted a x (sorted xs), mem-sorted a xs, mem-cons a x xs)

-- A character in front of the first part.
unfoldable pub extend : ℕ → List Text → List Text
extend c [] = (c ∷ []) ∷ []
extend c (part ∷ parts) = (c ∷ part) ∷ parts

-- What `str.isspace` says of a character up to 255.
unfoldable pub is_space : ℕ → Bool
is_space c = (leb 9 c && leb c 13) || (leb 28 c && leb c 32) || nat_beq c 133 || nat_beq c 160

-- A character before a text that ends in no space.
unfoldable pub strip_end : ℕ → Text → Text
strip_end c [] = if is_space c then [] else c ∷ []
strip_end c (d ∷ s) = c ∷ d ∷ s

-- `t.split(sep)` at one character: the parts, at least one.
unfoldable pub split : ℕ → Text → List Text
split sep [] = [] ∷ []
split sep (c ∷ s) = let rest = split sep s in if nat_beq c sep then [] ∷ rest else extend c rest

-- `t[len(prefix):]` where `t.startswith(prefix)`
unfoldable pub after_prefix : Text → Text → Option Text
after_prefix [] t = some t
after_prefix (p ∷ ps) [] = none
after_prefix (p ∷ ps) (c ∷ t) = let rest = after_prefix ps t in if nat_beq p c then rest else none

unfoldable pub strip_left : Text → Text
strip_left [] = []
strip_left (c ∷ s) = let rest = strip_left s in if is_space c then rest else c ∷ s

unfoldable pub strip_right : Text → Text
strip_right [] = []
strip_right (c ∷ s) = strip_end c (strip_right s)

-- `t.strip()`
unfoldable pub strip : Text → Text
strip t = strip_right (strip_left t)

-- `str(n)` of a number that is not negative; the fuel bounds the number of digits.
unfoldable pub digits : ℕ → ℕ → Text → Text
digits zero n shown = shown
digits (suc fuel) n shown =
    let longer = digits fuel (n / 10) ((48 + n % 10) ∷ shown) in
    if ltb n 10 then (48 + n) ∷ shown else longer

unfoldable pub decimal : ℕ → Text
decimal n = digits (suc n) n []
