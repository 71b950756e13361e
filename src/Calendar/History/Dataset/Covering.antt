-- ===== src/Calendar/History/Dataset/Covering.antt =====
-- What `Dataset.Coverage` says of a range.
use job_time_stock_watcher.Base.{
  ℕ, ◌≤◌, true, false, not, ◌&&◌, List, [], ◌∷◌, Option, none, some, Text, is_empty, All, ◌≡◌, refl,
  sym, ◌∙◌, subst, inl, inr, Bool-cases, arith, ◌↔◌,
}
use job_time_stock_watcher.Calendar.History.{History, validate_range, day_in, is_inside}
use job_time_stock_watcher.Calendar.History.Coverage.{
  Window, Span, CoverageStatus, Coverage, merged_spans, cover,
}
use job_time_stock_watcher.Calendar.History.Coverage.Gaps.{
  spans_have, is_covered, missing_have, missing-ordered,
}
use job_time_stock_watcher.Calendar.History.Coverage.Unions.{merged_spans_lem}
use job_time_stock_watcher.Calendar.History.Dataset.{
  windows_of, first_invalid, validate_consistency, coverage,
}

pub range_days :
    (from through : Option ℕ)
    → validate_range from through ≡ none
    → (from ≡ some (day_in from))
      × (through ≡ some (day_in through))
      × (day_in from ≤ day_in through)
unfolding validate_range
range_days none through h = cc
range_days (some a) none h = cc
range_days (some a) (some b) h = (refl, refl, ground (arith, h))

-- A range is covered where every day of it is in a window.
abbrev pub AllCovered : List Window → ℕ → ℕ → Type 0
AllCovered ws from through = (x : ℕ) → is_inside from through x ≡ true → is_covered x ws ≡ true

cover_missing :
    (ws : List Window) (from through x : ℕ)
    → spans_have x (cover ws from through).missing
      ≡ (is_inside from through x && not (is_covered x ws))
unfolding cover
cover_missing ws from through x =
    let (rises, same) = merged_spans_lem x from through ws in
    let gaps = missing_have x from through (merged_spans ws from through) rises in
    ground (arith, gaps, same)

starts_in : (s : Span) (ss : List Span) → s.from ≤ s.through → spans_have (s.from) (s ∷ ss) ≡ true
starts_in s ss h = ground (arith, h)

empty_have : (x : ℕ) (ss : List Span) → is_empty ss ≡ true → spans_have x ss ≡ false
empty_have x [] h = refl
empty_have x (s ∷ ss) h = cc

no_gap :
    (ss : List Span)
    → All (λ g. g.from ≤ g.through) ss
    → ((x : ℕ) → spans_have x ss ≡ false)
    → is_empty ss ≡ true
no_gap [] h k = refl
no_gap (s ∷ ss) h k = let impossible : true ≡ false = sym (starts_in s ss h.0) ∙ k s.from in cc

-- No day of the range is in a window.
abbrev pub NoneCovered : List Window → ℕ → ℕ → Type 0
NoneCovered ws from through = (x : ℕ) → is_inside from through x ≡ true → is_covered x ws ≡ false

complete→AllCovered :
    (ws : List Window) (from through : ℕ)
    → is_empty (cover ws from through).missing ≡ true
    → AllCovered ws from through
complete→AllCovered ws from through h x k =
    let gaps = cover_missing ws from through x in
    let none_has = empty_have x (cover ws from through).missing h in
    ground (arith, gaps, none_has, k)

AllCovered→complete :
    (ws : List Window) (from through : ℕ)
    → AllCovered ws from through
    → is_empty (cover ws from through).missing ≡ true
AllCovered→complete ws from through h =
    no_gap (cover ws from through).missing
      (unfold cover in missing-ordered from through (merged_spans ws from through))
      (λ x. elim (Bool-cases (is_inside from through x)) [
        | inl e ↦
            let gaps = cover_missing ws from through x in
            let all = h x e in ground (arith, gaps, all)
        | inr e ↦ let gaps = cover_missing ws from through x in ground (arith, gaps, e)
      ])

pub cover-full :
    (ws : List Window) (from through : ℕ)
    → ((cover ws from through).complete ≡ true) ↔ AllCovered ws from through
cover-full ws from through =
    unfold cover in (complete→AllCovered ws from through, AllCovered→complete ws from through)

-- `missing` is the status where no day is covered.
missing→NoneCovered :
    (ws : List Window) (from through : ℕ)
    → (cover ws from through).status ≡ CoverageStatus.missing
    → NoneCovered ws from through
missing→NoneCovered ws from through h x k =
    let empty : is_empty (merged_spans ws from through) ≡ true =
      unfold cover in ground (arith, h) in
    let none_has = empty_have x (merged_spans ws from through) empty in
    let same = (merged_spans_lem x from through ws).1 in ground (arith, none_has, same, k)

pub record IsExact (ws : List Window) (c : Coverage) : Type 0 where
  pub exact :
      (x : ℕ) → spans_have x c.missing ≡ (is_inside c.from c.through x && not (is_covered x ws))
  pub full : (c.complete ≡ true) ↔ AllCovered ws c.from c.through
  pub bare : c.status ≡ CoverageStatus.missing → NoneCovered ws c.from c.through

pub cover-IsExact : (ws : List Window) (from through : ℕ) → IsExact ws (cover ws from through)
cover-IsExact ws from through =
    unfold cover in
    record {
      exact = λ x. cover_missing ws from through x;
      full = cover-full ws from through;
      bare = missing→NoneCovered ws from through;
    }

module _ (hash : ℕ → Text → ℕ → ℕ → List ℕ → Text) where
  -- What has passed where `Coverage` gives an answer.
  pub record Passed (d : List History) (from through : Option ℕ) (c : Coverage) : Type 0 where
    pub ranged : validate_range from through ≡ none
    pub valid : first_invalid hash d ≡ none
    pub consistent : validate_consistency (windows_of d) ≡ none
    pub answer : c ≡ cover (windows_of d) (day_in from) (day_in through)

  pub coverage-Passed :
      (d : List History) (from through : Option ℕ) (c : Coverage)
      → coverage hash d from through ≡ inr c
      → Passed d from through c
  unfolding coverage
  coverage-Passed d from through c h = record {
    ranged = ground (arith, h);
    valid = ground (arith, h);
    consistent = ground (arith, h);
    answer = ground (arith, h);
  }

  -- An answer of `Dataset.Coverage` is about the range that was asked for. Its missing spans have
  -- exactly the days of the range that no window covers; it is complete exactly where every day of the
  -- range is in a window, and where its status is `missing`, none is.
  pub coverage-IsExact :
      (d : List History) (from through : Option ℕ) (c : Coverage)
      → coverage hash d from through ≡ inr c
      → (from ≡ some c.from) × (through ≡ some c.through) × IsExact (windows_of d) c
  coverage-IsExact d from through c h =
      let p = coverage-Passed d from through c h in
      let r = range_days from through p.ranged in
      subst (λ b. (from ≡ some b.from) × (through ≡ some b.through) × IsExact (windows_of d) b)
        (sym p.answer)
        (unfold cover in (r.0, r.1, cover-IsExact (windows_of d) (day_in from) (day_in through)))
