-- ===== src/Calendar/History/Coverage/Unions.antt =====
-- The clipped, sorted and merged spans have the days of the range that a window covers.
use job_time_stock_watcher.Base.{
  ℕ, ◌+◌, ◌≤◌, Bool, true, false, ◌&&◌, ◌||◌, List, [], ◌∷◌, ltb, sort_by, any-sort_by, IsSorted,
  sort_by-IsSorted, All, All-map, ◌≡◌, refl, ap, ◌∙◌, inl, inr, Bool-cases, arith,
}
use job_time_stock_watcher.Calendar.History.{is_inside}
use job_time_stock_watcher.Calendar.History.Coverage.{
  Window, Span, clip, span_less, merge_from, merge_spans, merged_spans,
}
use job_time_stock_watcher.Calendar.History.Coverage.Gaps.{spans_have, is_covered, Rising}

module _ (m s : Span) (ss : List Span) where
  merge_apart : ltb (m.through + 1) s.from ≡ true → merge_from m (s ∷ ss) ≡ m ∷ merge_from s ss
  unfolding merge_from
  merge_apart a = rw a refl

  merge_longer :
      ltb (m.through + 1) s.from ≡ false
      → ltb m.through s.through ≡ true
      → merge_from m (s ∷ ss) ≡ merge_from (record m { through = s.through }) ss
  unfolding merge_from
  merge_longer a b = rw (a, b) refl

  merge_same :
      ltb (m.through + 1) s.from ≡ false
      → ltb m.through s.through ≡ false
      → merge_from m (s ∷ ss) ≡ merge_from m ss
  unfolding merge_from
  merge_same a b = rw (a, b) refl

-- Of a list that starts no earlier than `a`.
merge_from-Rising :
    (a : ℕ) (m : Span) (ss : List Span)
    → a ≤ m.from
    → Rising (m ∷ ss)
    → All (λ t. a ≤ t.from) (merge_from m ss) × Rising (merge_from m ss)
merge_from-Rising a m [] h r = unfold merge_from in ((h, tt), (tt, tt))
merge_from-Rising a m (s ∷ ss) h r = elim (Bool-cases (ltb (m.through + 1) s.from)) [
  | inl e ↦
      let first = r.0.0 in
      let low = merge_from-Rising a s ss (omega (arith, h, first)) r.1 in
      let rest = merge_from-Rising m.from s ss first r.1 in
      rw (merge_apart m s ss e) ((h, low.0), rest)
  | inr e ↦ elim (Bool-cases (ltb m.through s.through)) [
    | inl f ↦
        rw (merge_longer m s ss e f)
          (merge_from-Rising a (record m { through = s.through }) ss h (r.0.1, r.1.1))
    | inr f ↦ rw (merge_same m s ss e f) (merge_from-Rising a m ss h (r.0.1, r.1.1))
  ]
]

module _ (x : ℕ) (m s : Span) (rest : Bool) (h : m.from ≤ s.from) where
  longer_lem :
      ltb (m.through + 1) s.from ≡ false
      → ltb m.through s.through ≡ true
      → (is_inside m.from s.through x || rest)
        ≡ (is_inside m.from m.through x || (is_inside s.from s.through x || rest))
  longer_lem a b = ground (arith, a, b, h)

  same_lem :
      ltb (m.through + 1) s.from ≡ false
      → ltb m.through s.through ≡ false
      → (is_inside m.from m.through x || rest)
        ≡ (is_inside m.from m.through x || (is_inside s.from s.through x || rest))
  same_lem a b = ground (arith, a, b, h)

-- Merging keeps the days.
merge_from_have :
    (x : ℕ) (m : Span) (ss : List Span)
    → Rising (m ∷ ss)
    → spans_have x (merge_from m ss) ≡ spans_have x (m ∷ ss)
merge_from_have x m [] r = unfold merge_from in refl
merge_from_have x m (s ∷ ss) r =
    let have = λ (l : List Span). spans_have x l in
    elim (Bool-cases (ltb (m.through + 1) s.from)) [
      | inl e ↦
          ap have (merge_apart m s ss e)
          ∙ ap (λ b. is_inside m.from m.through x || b) (merge_from_have x s ss r.1)
      | inr e ↦ elim (Bool-cases (ltb m.through s.through)) [
        | inl f ↦
            ap have (merge_longer m s ss e f)
            ∙ merge_from_have x (record m { through = s.through }) ss (r.0.1, r.1.1)
            ∙ longer_lem x m s (spans_have x ss) r.0.0 e f
        | inr f ↦
            ap have (merge_same m s ss e f)
            ∙ merge_from_have x m ss (r.0.1, r.1.1)
            ∙ same_lem x m s (spans_have x ss) r.0.0 e f
      ]
    ]

clip_have :
    (x from through : ℕ) (ws : List Window)
    → spans_have x (clip from through ws) ≡ (is_inside from through x && is_covered x ws)
unfolding clip
clip_have x from through [] = ground arith
clip_have x from through (w ∷ ws) =
    let ih = clip_have x from through ws in
    elim (Bool-cases (ltb w.through from || ltb through w.from)) [
      | inl e ↦ rw e (ground (arith, ih, e))
      | inr e ↦ rw e (ground (arith, ih, e))
    ]

less_asym : (s t : Span) → span_less s t ≡ true → span_less t s ≡ false
less_asym s t h = ground arith

less_co_trans :
    (s t u : Span) → span_less t s ≡ false → span_less u t ≡ false → span_less u s ≡ false
less_co_trans s t u h k = ground arith

sorted-Rising : (ss : List Span) → IsSorted span_less ss → Rising ss
sorted-Rising [] h = tt
sorted-Rising (s ∷ ss) h = (
  All-map (λ t. span_less t s ≡ false) (λ t. s.from ≤ t.from) ss (λ t e. ground (arith, e)) h.0,
  sorted-Rising ss h.1,
)

merge_spans_lem :
    (x : ℕ) (ss : List Span)
    → Rising ss
    → Rising (merge_spans ss) × (spans_have x (merge_spans ss) ≡ spans_have x ss)
merge_spans_lem x [] h = (tt, refl)
merge_spans_lem x (s ∷ ss) h =
    ((merge_from-Rising 0 s ss (omega arith) h).1, merge_from_have x s ss h)

pub merged_spans_lem :
    (x from through : ℕ) (ws : List Window)
    → Rising (merged_spans ws from through)
      × (spans_have x (merged_spans ws from through)
          ≡ (is_inside from through x && is_covered x ws))
merged_spans_lem x from through ws =
    let clipped = clip from through ws in
    let sorted = sort_by-IsSorted span_less less_asym less_co_trans clipped in
    let (rises, same) =
      merge_spans_lem x (sort_by span_less clipped)
        (sorted-Rising (sort_by span_less clipped) sorted) in
    (
      rises,
      same
          ∙ any-sort_by span_less (λ s. is_inside s.from s.through x) clipped
          ∙ clip_have x from through ws,
    )
