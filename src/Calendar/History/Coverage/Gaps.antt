-- ===== src/Calendar/History/Coverage/Gaps.antt =====
-- The gaps of a list of spans that start one after the other.
use job_time_stock_watcher.Base.{
  ℕ, ◌+◌, ◌-◌, ◌≤◌, ltb→lt, leb→le, All-append, Bool, true, false, not, ◌&&◌, ◌||◌, List, [], ◌∷◌,
  ◌++◌, any, ltb, leb, All, ◌≡◌, refl, ap, ◌∙◌, ◌⊎◌, inl, inr, Bool-cases, arith,
}
use job_time_stock_watcher.Calendar.History.{is_inside}
use job_time_stock_watcher.Calendar.History.Coverage.{
  Window, Span, gap_before, gap_after, missing_spans,
}

-- Whether a span has the day.
abbrev pub spans_have : ℕ → List Span → Bool
spans_have x ss = any (λ s. is_inside s.from s.through x) ss

-- Whether a window covers the day.
abbrev pub is_covered : ℕ → List Window → Bool
is_covered x ws = any (λ w. is_inside w.from w.through x) ws

-- Every span starts no later than those that follow it.
abbrev pub Rising : List Span → Type 0
Rising [] = Unit
Rising (s ∷ ss) = All (λ t. s.from ≤ t.from) ss × Rising ss

append-have :
    (x : ℕ) (ss ts : List Span) → spans_have x (ss ++ ts) ≡ (spans_have x ss || spans_have x ts)
append-have x [] ts = refl
append-have x (s ∷ ss) ts = ground (arith, append-have x ss ts)

-- A day before all spans is in none.
before-have :
    (x a : ℕ) (ss : List Span) → ltb x a ≡ true → All (λ t. a ≤ t.from) ss → spans_have x ss ≡ false
before-have x a [] h k = refl
before-have x a (s ∷ ss) h k =
    let rest = before-have x a ss h k.1 in let first = k.0 in ground (arith, h, rest, first)

gap_after-have : (x c t : ℕ) → spans_have x (gap_after c t) ≡ is_inside c t x
gap_after-have x c t = ground arith

gap_before-have :
    (x c t : ℕ) (s : Span)
    → leb c s.through ≡ true
    → leb s.from t ≡ true
    → spans_have x (gap_before c t s) ≡ (leb c x && ltb x s.from)
gap_before-have x c t s h k = ground (arith, h, k)

module _ (c t : ℕ) (s : Span) (ss : List Span) where
  missing_skipped : ltb s.through c ≡ true → missing_spans c t (s ∷ ss) ≡ missing_spans c t ss
  unfolding missing_spans
  missing_skipped a = rw a refl

  missing_stopped :
      ltb s.through c ≡ false → ltb t s.from ≡ true → missing_spans c t (s ∷ ss) ≡ gap_after c t
  unfolding missing_spans
  missing_stopped a b = rw (a, b) refl

  missing_ended :
      ltb s.through c ≡ false
      → ltb t s.from ≡ false
      → leb t s.through ≡ true
      → missing_spans c t (s ∷ ss) ≡ gap_before c t s
  unfolding missing_spans
  missing_ended a b e = rw (a, b, e) refl

  missing_next :
      ltb s.through c ≡ false
      → ltb t s.from ≡ false
      → leb t s.through ≡ false
      → missing_spans c t (s ∷ ss) ≡ gap_before c t s ++ missing_spans (s.through + 1) t ss
  unfolding missing_spans
  missing_next a b e = rw (a, b, e) refl

-- What a span list says of a day before its first span, and of any other day.
Low : ℕ → Span → List Span → Type 0
Low x s ss = ((ltb x s.from ≡ true) × (spans_have x ss ≡ false)) ⊎ (ltb x s.from ≡ false)

Low-cases : (x : ℕ) (s : Span) (ss : List Span) → All (λ t. s.from ≤ t.from) ss → Low x s ss
unfolding Low
Low-cases x s ss h = elim (Bool-cases (ltb x s.from)) [
  | inl low ↦ inl (low, before-have x s.from ss low h)
  | inr high ↦ inr high
]

module _ (x c t : ℕ) (s : Span) (rest : Bool) where
  stopped_lem :
      ltb s.through c ≡ false
      → ltb t s.from ≡ true
      → (((ltb x s.from ≡ true) × (rest ≡ false)) ⊎ (ltb x s.from ≡ false))
      → is_inside c t x ≡ (is_inside c t x && not (is_inside s.from s.through x || rest))
  stopped_lem a b (inl (low, r)) = ground (arith, a, b, low, r)
  stopped_lem a b (inr high) = ground (arith, a, b, high)

  skipped_lem :
      ltb s.through c ≡ true
      → (is_inside c t x && not rest)
        ≡ (is_inside c t x && not (is_inside s.from s.through x || rest))
  skipped_lem a = ground (arith, a)

  ended_lem :
      ltb s.through c ≡ false
      → ltb t s.from ≡ false
      → leb t s.through ≡ true
      → (((ltb x s.from ≡ true) × (rest ≡ false)) ⊎ (ltb x s.from ≡ false))
      → (leb c x && ltb x s.from) ≡ (is_inside c t x && not (is_inside s.from s.through x || rest))
  ended_lem a b e (inl (low, r)) = ground (arith, a, b, e, low, r)
  ended_lem a b e (inr high) = ground (arith, a, b, e, high)

  next_lem :
      ltb s.through c ≡ false
      → ltb t s.from ≡ false
      → leb t s.through ≡ false
      → (((ltb x s.from ≡ true) × (rest ≡ false)) ⊎ (ltb x s.from ≡ false))
      → ((leb c x && ltb x s.from) || (is_inside (s.through + 1) t x && not rest))
        ≡ (is_inside c t x && not (is_inside s.from s.through x || rest))
  next_lem a b e (inl (low, r)) = ground (arith, a, b, e, low, r)
  next_lem a b e (inr high) = ground (arith, a, b, e, high)

-- A gap has the days of the range from the cursor on that no span has.
pub missing_have :
    (x c t : ℕ) (ss : List Span)
    → Rising ss
    → spans_have x (missing_spans c t ss) ≡ (is_inside c t x && not (spans_have x ss))
unfolding Low
missing_have x c t [] h = unfold missing_spans in ground (arith, gap_after-have x c t)
missing_have x c t (s ∷ ss) h =
    let low = Low-cases x s ss h.0 in
    let rest = spans_have x ss in
    let have = λ (l : List Span). spans_have x l in
    elim (Bool-cases (ltb s.through c)) [
      | inl a ↦
          ap have (missing_skipped c t s ss a)
          ∙ missing_have x c t ss h.1
          ∙ skipped_lem x c t s rest a
      | inr a ↦ elim (Bool-cases (ltb t s.from)) [
        | inl b ↦
            ap have (missing_stopped c t s ss a b)
            ∙ gap_after-have x c t
            ∙ stopped_lem x c t s rest a b low
        | inr b ↦
            let gap = gap_before-have x c t s (ground (arith, a)) (ground (arith, b)) in
            elim (Bool-cases (leb t s.through)) [
              | inl e ↦
                  ap have (missing_ended c t s ss a b e) ∙ gap ∙ ended_lem x c t s rest a b e low
              | inr e ↦
                  let more = missing_have x (s.through + 1) t ss h.1 in
                  ap have (missing_next c t s ss a b e)
                  ∙ append-have x (gap_before c t s) (missing_spans (s.through + 1) t ss)
                  ∙ (rw (gap, more) refl)
                  ∙ next_lem x c t s rest a b e low
            ]
      ]
    ]

after-ordered : (c t : ℕ) → All (λ g. g.from ≤ g.through) (gap_after c t)
after-ordered c t = elim (Bool-cases (leb c t)) [
  | inl e ↦ rw e (leb→le c t e, tt)
  | inr e ↦ rw e tt
]

gap_before-ordered :
    (c t : ℕ) (s : Span) → leb s.from t ≡ true → All (λ g. g.from ≤ g.through) (gap_before c t s)
gap_before-ordered c t s h = elim (Bool-cases (ltb c s.from)) [
  | inl e ↦ elim (Bool-cases (ltb t (s.from - 1))) [
    | inl f ↦ rw (e, f) (omega (arith, ltb→lt c s.from e, leb→le s.from t h), tt)
    | inr f ↦ rw (e, f) (omega (arith, ltb→lt c s.from e), tt)
  ]
  | inr e ↦ rw e tt
]

-- No gap is empty.
pub missing-ordered :
    (c t : ℕ) (ss : List Span) → All (λ g. g.from ≤ g.through) (missing_spans c t ss)
missing-ordered c t [] = unfold missing_spans in after-ordered c t
missing-ordered c t (s ∷ ss) = elim (Bool-cases (ltb s.through c)) [
  | inl a ↦ rw (missing_skipped c t s ss a) (missing-ordered c t ss)
  | inr a ↦ elim (Bool-cases (ltb t s.from)) [
    | inl b ↦ rw (missing_stopped c t s ss a b) (after-ordered c t)
    | inr b ↦
        let gap = gap_before-ordered c t s (ground (arith, b)) in
        elim (Bool-cases (leb t s.through)) [
          | inl e ↦ rw (missing_ended c t s ss a b e) gap
          | inr e ↦ rw (missing_next c t s ss a b e) (
              All-append (λ g. g.from ≤ g.through) (gap_before c t s)
                (missing_spans (s.through + 1) t ss) gap (missing-ordered (s.through + 1) t ss))
        ]
  ]
]
