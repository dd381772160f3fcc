-- ===== src/Webhook/Header.antt =====
-- src/p2_satellite/event_listener.py, `_parse_signature_header`: the timestamp and the digest of
-- `X-P2-Signature`, with what Python's `int` and `str` do. Header text is Latin-1, where the only
-- decimal digits are the ASCII ones.
use mathlib.Core.Option
use p2_ai_knowledge_graph_fo.Base.{
  ℕ, zero, suc, ◌+◌, ◌-◌, ◌*◌, ◌/◌, ◌%◌, Bool, true, false, ◌&&◌, ◌↔◌, ◌≡◌, List, [], ◌∷◌, ◌++◌,
  Option, none, some, Text, ◌>>=◌, if◌then◌else◌, Eq, nat_eq, eq_iff, nat_beq, leb, split,
  after_prefix, strip, codes, arith,
}

pub data ℤ : Type 0 where
  pos : ℕ → ℤ
  negsuc : ℕ → ℤ

unfoldable pub int_beq : ℤ → ℤ → Bool
int_beq (pos a) (pos b) = nat_beq a b
int_beq (negsuc a) (negsuc b) = nat_beq a b
int_beq (pos a) (negsuc b) = false
int_beq (negsuc a) (pos b) = false

unabs : ℤ → ℕ
unabs (pos a) = a
unabs (negsuc a) = a

pub int_beq_iff : (a b : ℤ) → (int_beq a b ≡ true) ↔ (a ≡ b)
unfolding int_beq
int_beq_iff (pos a) (pos b) = ground (arith, eq_iff a b)
int_beq_iff (negsuc a) (negsuc b) = ground (arith, eq_iff a b)
int_beq_iff (pos a) (negsuc b) = ground arith
int_beq_iff (negsuc a) (pos b) = ground arith

instance abbrev pub int_eq : Eq ℤ
int_eq = record { same = int_beq; same_iff = int_beq_iff }

-- `abs(now - t)`
unfoldable pub clock_skew : ℕ → ℤ → ℕ
clock_skew now (pos t) = (now - t) + (t - now)
clock_skew now (negsuc t) = now + suc t

unfoldable pub digits : ℕ → ℕ → Text
digits zero n = []
digits (suc fuel) n = elim (n / 10) [
  | zero ↦ (48 + n) ∷ []
  | suc q ↦ digits fuel (suc q) ++ (48 + n % 10) ∷ []
]

-- `str(t)`; a number has at most as many digits as it says, and one more for 0
unfoldable pub decimal : ℤ → Text
decimal (pos t) = digits (suc t) t
decimal (negsuc t) = b'-' ∷ digits (suc (suc t)) (suc t)

unfoldable pub is_digit : ℕ → Bool
is_digit c = leb 48 c && leb c 57

-- The digits of an `int`, with single underscores between: whether a digit must come next, and
-- the value so far.
unfoldable pub read_digits : Bool → ℕ → Text → Option ℕ
read_digits must value [] = if must then none else some value
read_digits must value (c ∷ s) =
    let underscore = read_digits true value s in
    let digit = read_digits false (10 * value + (c - 48)) s in
    if is_digit c then digit else if must then none else if nat_beq c b'_' then underscore else none

unfoldable pub negate : ℕ → ℤ
negate zero = pos zero
negate (suc n) = negsuc n

unfoldable pub read_signed : Text → Option ℤ
read_signed [] = none
read_signed (c ∷ s) =
    if nat_beq c b'-'
    then Option.map negate (read_digits true 0 s)
    else Option.map pos (read_digits true 0 (if nat_beq c b'+' then s else c ∷ s))

-- `int(text)`, `none` for a `ValueError`
unfoldable pub read_int : Text → Option ℤ
read_int text = read_signed (strip text)

unfoldable pub with_digest : ℤ → Text → Option (ℤ × Text)
with_digest t [] = none
with_digest t (c ∷ s) = some (t, c ∷ s)

unfoldable pub parse_parts : List Text → Option (ℤ × Text)
parse_parts (t_part ∷ v1_part ∷ []) = do
  epoch ← after_prefix (codes "t=") t_part
  provided_hex ← after_prefix (codes "v1=sha256=") v1_part
  t ← read_int epoch
  with_digest t provided_hex
parse_parts _ = none

unfoldable pub parse_signature_header : Text → Option (ℤ × Text)
parse_signature_header signature_header = parse_parts (split b',' signature_header)
