-- ===== src/Concurrency/Exclusion.antt =====
-- src/p2_satellite/concurrency.py: no two callers process one system at a time.
use mathlib.Core.List.Memᴰ
use p2_ai_knowledge_graph_fo.Base.{
  ℕ, ◌≡◌, refl, sym, ap, subst, ◌⊎◌, inl, inr, Bool, true, false, not, List, [], ◌∷◌, Option, none,
  some, Text, lookup, put, lookup-put, ◌==◌, list_eq, nat_eq, eq_iff, eq-cases, Memᴰ, mem-keep_if,
  keep_if, pair_eq, arith, Bool-cases, Option-cases, if◌then◌else◌, ◌↔◌,
}
use p2_ai_knowledge_graph_fo.Concurrency.{
  Locks, System, get_lock, try_acquire, exit_processing, enter, leave,
}

-- What the callers may do, in any interleaving. A caller leaves only what it is processing.
pub data Step : System → System → Type 0 where
  entering : (s : System) (caller : ℕ) (i : Text) → Step s (enter caller i s)
  leaving :
      (s : System) (caller : ℕ) (i : Text)
      → Memᴰ (caller, i) s.processing
      → Step s (leave caller i s)

pub data Reach (s : System) : System → Type 0 where
  here : Reach s s
  next : {t u : System} → Reach s t → Step t u → Reach s u

abbrev pub init : System
init = record { locks = []; processing = [] }

-- No id is processed twice, at whatever places of the list.
abbrev pub OneEach : List (ℕ × Text) → Type 0
OneEach [] = Unit
OneEach (p ∷ ps) = ((q : ℕ × Text) → Memᴰ q ps → ¬ (q.1 ≡ p.1)) × OneEach ps

-- A lock is held exactly for the ids that are processed.
pub record IsConsistent (s : System) : Type 0 where
  pub one_each : OneEach s.processing
  pub held : (p : ℕ × Text) → Memᴰ p s.processing → lookup p.1 s.locks ≡ some true
  pub owned :
      (i : Text) → lookup i s.locks ≡ some true → (caller : ℕ) × Memᴰ (caller, i) s.processing

-- How the registry answers.
get_lock_there :
    (locks : Locks) (i : Text) (held : Bool)
    → lookup i locks ≡ some held
    → get_lock locks i ≡ (locks, held)
unfolding get_lock
get_lock_there locks i held h = rw (h, get_lock) refl

get_lock_new :
    (locks : Locks) (i : Text)
    → lookup i locks ≡ none
    → get_lock locks i ≡ (put i false locks, false)
unfolding get_lock
get_lock_new locks i h = rw (h, get_lock) refl

pub try_acquire_held :
    (locks : Locks) (i : Text) → lookup i locks ≡ some true → try_acquire locks i ≡ (locks, false)
unfolding try_acquire
try_acquire_held locks i h = rw (get_lock_there locks i true h) refl

-- A lock that is not held is taken, and no other lock changes.
pub record Taken (locks : Locks) (i : Text) : Type 0 where
  pub acquired : (try_acquire locks i).1 ≡ true
  pub locks_after :
      (j : Text) → lookup j (try_acquire locks i).0 ≡ (if i == j then some true else lookup j locks)

pub try_acquire_free : (locks : Locks) (i : Text) → ¬ (lookup i locks ≡ some true) → Taken locks i
unfolding try_acquire
try_acquire_free locks i free = elim (Option-cases (lookup i locks)) [
  | inl e ↦ record {
    acquired = rw (get_lock_new locks i e) refl;
    locks_after = λ j. rw (get_lock_new locks i e) (
        ground
          (arith, eq_iff i j, lookup-put i j true (put i false locks), lookup-put i j false locks));
  }
  | inr (true, e) ↦ absurd (free e)
  | inr (false, e) ↦ record {
    acquired = rw (get_lock_there locks i false e) refl;
    locks_after = λ j. rw (get_lock_there locks i false e) (lookup-put i j true locks);
  }
]

pub held-cases : (o : Option Bool) → (o ≡ some true) ⊎ (¬ (o ≡ some true))
held-cases none = inr (λ e. cc)
held-cases (some true) = inl refl
held-cases (some false) = inr (λ e. cc)

enter-IsConsistent :
    (caller : ℕ) (i : Text) (s : System) → IsConsistent s → IsConsistent (enter caller i s)
unfolding enter
enter-IsConsistent caller i s c = elim (held-cases (lookup i s.locks)) [
  | inl h ↦
      rw (try_acquire_held s.locks i h)
        (record { one_each = c.one_each; held = c.held; owned = c.owned })
  | inr free ↦
      let taken = try_acquire_free s.locks i free in
      rw taken.acquired (record {
        one_each = (
          λ q m same. free (subst (λ x. lookup x s.locks ≡ some true) same (c.held q m)),
          c.one_each,
        );
        held = λ p m. elim (Memᴰ.cases_cons m) [
          | inl q ↦ ground (arith, taken.locks_after p.1, eq_iff i p.1, ap (λ x. x.1) q)
          | inr older ↦ ground (arith, taken.locks_after p.1, eq_iff i p.1, c.held p older)
        ];
        owned = λ j h. elim (eq-cases i j) [
          | inl same ↦ (caller, Memᴰ.head (ap (λ x. (caller, x)) (sym same)))
          | inr other ↦
              let t = c.owned j (ground (arith, other, h, taken.locks_after j)) in
              (t.0, Memᴰ.tail t.1)
        ];
      })
]

OneEach-keep_if : (p : ℕ × Text → Bool) (ps : List (ℕ × Text)) → OneEach ps → OneEach (keep_if p ps)
OneEach-keep_if p [] h = h
OneEach-keep_if p (x ∷ ps) h = elim (Bool-cases (p x)) [
  | inl e ↦ rw e (λ q m. h.0 q ((mem-keep_if p q ps).0 m).0, OneEach-keep_if p ps h.1)
  | inr e ↦ rw e (OneEach-keep_if p ps h.1)
]

same_caller :
    (ps : List (ℕ × Text)) (p q : ℕ × Text) → OneEach ps → Memᴰ p ps → Memᴰ q ps → p.1 ≡ q.1 → p ≡ q
same_caller [] p q one m m' same = absurd (Memᴰ.not-nil m)
same_caller (x ∷ ps) p q one m m' same = elim (Memᴰ.cases_cons m) [
  | inl e ↦ elim (Memᴰ.cases_cons m') [
    | inl e' ↦ cc (e, e')
    | inr t' ↦ absurd (one.0 q t' (cc (same, ap (λ y. y.1) e)))
  ]
  | inr t ↦ elim (Memᴰ.cases_cons m') [
    | inl e' ↦ absurd (one.0 p t (cc (same, ap (λ y. y.1) e')))
    | inr t' ↦ same_caller ps p q one.1 t t' same
  ]
]

-- A lock that is left: every other id that is processed keeps its own.
left_alone :
    (caller : ℕ) (i : Text) (ps : List (ℕ × Text)) (p : ℕ × Text)
    → OneEach ps
    → Memᴰ (caller, i) ps
    → Memᴰ p ps
    → not (p == (caller, i)) ≡ true
    → ¬ (i ≡ p.1)
left_alone caller i ps p one m m' differs same =
    ground (arith, differs, eq_iff p (caller, i), same_caller ps p (caller, i) one m' m (sym same))

leave-IsConsistent :
    (caller : ℕ) (i : Text) (s : System)
    → Memᴰ (caller, i) s.processing
    → IsConsistent s
    → IsConsistent (leave caller i s)
unfolding leave exit_processing
leave-IsConsistent caller i s m c = record {
  one_each = OneEach-keep_if _ s.processing c.one_each;
  held = λ p m'.
      let kept = (mem-keep_if _ p s.processing).0 m' in
      let other = left_alone caller i s.processing p c.one_each m kept.0 kept.1 in
      ground (arith, lookup-put i p.1 false s.locks, eq_iff i p.1, c.held p kept.0, other);
  owned = λ j h. elim (eq-cases i j) [
    | inl same ↦ absurd (ground (arith, h, lookup-put i j false s.locks, eq_iff i j, same))
    | inr other ↦
        let t = c.owned j (ground (arith, h, other, lookup-put i j false s.locks)) in
        (
          t.0,
          (mem-keep_if _ (t.0, j) s.processing).1
              (t.1, ground (arith, other, eq_iff i j, eq_iff {A = ℕ × Text} (t.0, j) (caller, i))),
        )
  ];
}

Step-IsConsistent : (s t : System) → Step s t → IsConsistent s → IsConsistent t
Step-IsConsistent s _ (entering _ caller i) c = enter-IsConsistent caller i s c
Step-IsConsistent s _ (leaving _ caller i m) c = leave-IsConsistent caller i s m c

init-IsConsistent : IsConsistent init
unfolding lookup
init-IsConsistent = record {
  one_each = _;
  held = λ p m. absurd (Memᴰ.not-nil m);
  owned = λ i h. cc;
}

-- Whatever the callers did and in whatever order: no id is processed by two callers or twice by
-- one, and a lock is held exactly while somebody processes its id.
pub reachable-IsConsistent : (s : System) → Reach init s → IsConsistent s
reachable-IsConsistent _ here = init-IsConsistent
reachable-IsConsistent _ (next {t} r step) = Step-IsConsistent t _ step (reachable-IsConsistent t r)

-- In every reachable state, a caller is yielded `True` for an id exactly when nobody processes it.
pub acquired_iff_unprocessed :
    (s : System) (i : Text)
    → Reach init s
    → ((try_acquire s.locks i).1 ≡ true) ↔ (¬ ((caller : ℕ) × Memᴰ (caller, i) s.processing))
acquired_iff_unprocessed s i r =
    let c = reachable-IsConsistent s r in
    (
      λ h p. cc (h, ap (λ x. x.1) (try_acquire_held s.locks i (c.held (p.0, i) p.1))),
      λ h. (try_acquire_free s.locks i (λ e. h (c.owned i e))).acquired,
    )
