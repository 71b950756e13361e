-- ===== src/Calendar/History/Dataset/Listing.antt =====
-- The days that `Dataset.TradingDays` returns.
use job_time_stock_watcher.Base.{
  ℕ, Bool, true, false, ◌&&◌, List, [], ◌∷◌, Sum-cases, Option, none, some, Text, any, all,
  any-sort_by, sort_by, ltb, ◌==◌, ==_iff, In, ◌≡◌, refl, sym, ap, ◌∙◌, subst, inl, inr, Bool-cases,
  arith,
}
use job_time_stock_watcher.Calendar.History.{History, day_in, listed_days, is_inside, chained}
use job_time_stock_watcher.Calendar.History.Valid.{validate_history-IsValid}
use job_time_stock_watcher.Calendar.History.Coverage.{Window, Coverage}
use job_time_stock_watcher.Calendar.History.Dataset.{
  windows_of, has_day, validate_consistency, seen_days, first_invalid, coverage,
  dataset_trading_days,
}
use job_time_stock_watcher.Calendar.History.Dataset.Covering.{
  AllCovered, cover-full, Passed, coverage-Passed,
}
use job_time_stock_watcher.Calendar.History.Dataset.Agreeing.{
  covers_day, validate_consistency-Agree,
}
use job_time_stock_watcher.Calendar.History.Dataset.Seen.{
  Ascends-chained, sort_by-Ascends, seen_days-Fresh, seen_days-has,
}

-- An ascending list of the days of a range that agrees with every window: of each day of the range that
-- a window covers, it says what the window says, and every day of the range is covered.
pub record IsListing (ws : List Window) (from through : ℕ) (days : List ℕ) : Type 0 where
  pub ascending : chained ltb days ≡ true
  pub within : (x : ℕ) → has_day days x ≡ true → is_inside from through x ≡ true
  pub covered : AllCovered ws from through
  pub agrees :
      (w : Window) (x : ℕ)
      → In w ws
      → is_inside from through x ≡ true
      → covers_day w x ≡ true
      → has_day days x ≡ has_day w.days x

pub any-In :
    (p : Window → Bool) (ws : List Window) → any p ws ≡ true → (w : Window) × In w ws × (p w ≡ true)
any-In p [] h = cc
any-In p (w ∷ ws) h = elim (Bool-cases (p w)) [
  | inl e ↦ (w, inl refl, e)
  | inr e ↦ let (v, q, k) = any-In p ws (ground (arith, h, e)) in (v, inr q, k)
]

In-any :
    (p : Window → Bool) (w : Window) (ws : List Window) → In w ws → p w ≡ true → any p ws ≡ true
In-any p w [] h k = absurd h.1
In-any p w (v ∷ vs) h k = elim h [
  | inl e ↦ let same : p v ≡ true = ap p e ∙ k in rw same refl
  | inr q ↦ let rest = In-any p w vs q k in ground (arith, rest)
]

all-has : (p : ℕ → Bool) (x : ℕ) (ds : List ℕ) → all p ds ≡ true → has_day ds x ≡ true → p x ≡ true
all-has p x [] h k = cc
all-has p x (d ∷ ds) h k = elim (Bool-cases (d == x)) [
  | inl e ↦ let same = ap p ((==_iff d x).0 e) in ground (arith, same, h)
  | inr e ↦ all-has p x ds (ground (arith, h)) (ground (arith, k, e))
]

module _ (hash : ℕ → Text → ℕ → ℕ → List ℕ → Text) where
  -- A valid window covers its days.
  window-covers :
      (d : List History)
      → first_invalid hash d ≡ none
      → (w : Window) → In w (windows_of d)
      → (x : ℕ) → has_day w.days x ≡ true
      → covers_day w x ≡ true
  window-covers [] h w p x k = absurd p.1
  window-covers (g ∷ gs) h w p x k =
      let valid = validate_history-IsValid hash g (ground (arith, h)) in
      elim p [
        | inl e ↦
            let has : has_day (listed_days g) x ≡ true = ap (λ v. has_day v.days x) e ∙ k in
            ap (λ v. covers_day v x) (sym e)
            ∙ all-has (is_inside (day_in g.from) (day_in g.through)) x (listed_days g) valid.inside
                has
        | inr q ↦ window-covers gs (ground (arith, h)) w q x k
      ]

  -- Some window has a day of the range exactly where each window that covers the day has it.
  listed_agrees :
      (d : List History) (from through : ℕ) (w : Window) (x : ℕ)
      → first_invalid hash d ≡ none
      → validate_consistency (windows_of d) ≡ none
      → In w (windows_of d)
      → is_inside from through x ≡ true
      → covers_day w x ≡ true
      → (is_inside from through x && any (λ v. has_day v.days x) (windows_of d)) ≡ has_day w.days x
  listed_agrees d from through w x v c q i k =
      let ws = windows_of d in
      elim (Bool-cases (has_day w.days x)) [
        | inl e ↦
            let some_has = In-any (λ u. has_day u.days x) w ws q e in ground (arith, some_has, i, e)
        | inr e ↦ elim (Bool-cases (any (λ u. has_day u.days x) ws)) [
          | inl a ↦
              let (u, r, has) = any-In (λ u. has_day u.days x) ws a in
              let same =
                validate_consistency-Agree ws c u w r q x (window-covers d v u r x has) k in
              let impossible : true ≡ false = sym has ∙ same ∙ e in cc
          | inr a ↦ ground (arith, a, e)
        ]
      ]

  pub record Listed (d : List History) (from through : Option ℕ) (days : List ℕ) : Type 0 where
    pub found : Coverage
    pub passed : Passed hash d from through found
    pub complete : found.complete ≡ true
    pub answer : days ≡ sort_by ltb (seen_days (day_in from) (day_in through) [] (windows_of d))

  pub dataset_trading_days-Listed :
      (d : List History) (from through : Option ℕ) (days : List ℕ)
      → dataset_trading_days hash d from through ≡ inr days
      → Listed d from through days
  unfolding dataset_trading_days
  dataset_trading_days-Listed d from through days h =
      elim (Sum-cases (coverage hash d from through)) [
        | inl (e, q) ↦ let impossible : false ≡ true = ground (arith, h, q) in cc
        | inr (c, q) ↦ record {
          found = c;
          passed = coverage-Passed hash d from through c q;
          complete = ground (arith, h, q);
          answer = ground (arith, h, q);
        }
      ]

  -- The days that `Dataset.TradingDays` returns are in ascending order and in the range, which the
  -- windows cover. On every day of the range that a window covers they agree with that window.
  pub dataset_trading_days-IsListing :
      (d : List History) (from through : ℕ) (days : List ℕ)
      → dataset_trading_days hash d (some from) (some through) ≡ inr days
      → IsListing (windows_of d) from through days
  dataset_trading_days-IsListing d from through days h =
      let l = dataset_trading_days-Listed d (some from) (some through) days h in
      let p = l.passed in
      let ws = windows_of d in
      let seen = seen_days from through [] ws in
      let has : (x : ℕ)
          → has_day (sort_by ltb seen) x
            ≡ (is_inside from through x && any (λ w. has_day w.days x) ws) =
        λ x. any-sort_by ltb (λ y. y == x) seen ∙ seen_days-has from through ws [] x in
      subst (IsListing ws from through) (sym l.answer) (record {
        ascending =
            Ascends-chained (sort_by ltb seen)
              (sort_by-Ascends seen (seen_days-Fresh from through ws [] tt));
        within = λ x k. let same = has x in ground (arith, same, k);
        covered = (cover-full ws from through).0 (ap (λ c. c.complete) (sym p.answer) ∙ l.complete);
        agrees = λ w x q i k. has x ∙ listed_agrees d from through w x p.valid p.consistent q i k;
      })
