-- ===== src/Market/Days/Listing.antt =====
-- What `FetchTradingDays` returns.
use job_time_stock_watcher.Base.{
  true, false, ◌⊎◌, inl, inr, List, [], ◌∷◌, Text, codes, text_ltb, is_empty, sort_by, In,
  In-sort_by, All, Adjacent, Map, ◌≡◌, ◌↔◌, refl, subst, Bool-cases, arith,
}
use job_time_stock_watcher.Market.{
  ProviderError, data_error, SourceError, provider, all_failed, canceled, deadline_exceeded,
  storage,
}
use job_time_stock_watcher.Market.Health.{ProviderHealth, Settings}
use job_time_stock_watcher.Market.Attempts.{
  Turn, Result, answered, stopped, panicked, accept, attempt_loop,
}
use job_time_stock_watcher.Market.Attempts.Passing.{Serves, Ends, Exhausted, Explained}
use job_time_stock_watcher.Market.Attempts.Answers.{attempt_loop-Explained}
use job_time_stock_watcher.Market.Days.{
  DaysTurn, all_classified, days_fit, judge_days, fetch_trading_days,
}

-- The days of an answer, ascending and in the range.
pub record IsAnswer (start end : Text) (given days : List Text) : Type 0 where
  pub same : (d : Text) → In d days ↔ In d given
  pub full : is_empty days ≡ false
  pub inside : All (λ d. (text_ltb d start ≡ false) × (text_ltb end d ≡ false)) days
  pub ascending : Adjacent (λ c d. text_ltb c d ≡ true) days

days_fit-inside :
    (start end previous : Text) (days : List Text)
    → days_fit start end previous days ≡ true
    → All (λ d. (text_ltb d start ≡ false) × (text_ltb end d ≡ false)) days
days_fit-inside start end previous [] h = tt
days_fit-inside start end previous (d ∷ ds) h =
    ((ground (arith, h), ground (arith, h)), days_fit-inside start end d ds (ground (arith, h)))

days_fit-ascending :
    (start end previous : Text) (days : List Text)
    → days_fit start end previous days ≡ true
    → Adjacent (λ c d. text_ltb c d ≡ true) days
days_fit-ascending start end previous [] h = tt
days_fit-ascending start end previous (d ∷ []) h = tt
days_fit-ascending start end previous (d ∷ e ∷ es) h =
    (ground (arith, h), days_fit-ascending start end d (e ∷ es) (ground (arith, h)))

module _ (start end : Text) where
  judge_days-IsAnswer :
      (name : Text) (a : List Text ⊎ SourceError) (days : List Text)
      → judge_days start end name a ≡ accept days
      → (given : List Text) × (a ≡ inl given) × IsAnswer start end given days
  unfolding judge_days
  judge_days-IsAnswer name (inl given) days h =
      let sorted = sort_by text_ltb given in
      let full : is_empty sorted ≡ false = ground (arith, h) in
      let fits : days_fit start end [] sorted ≡ true = ground (arith, h) in
      let same : sorted ≡ days = ground (arith, h) in
      (
        given,
        refl,
        subst (IsAnswer start end given) same (record {
          same = λ d. In-sort_by text_ltb d given;
          full = full;
          inside = days_fit-inside start end [] sorted fits;
          ascending = days_fit-ascending start end [] sorted fits;
        }),
      )
  judge_days-IsAnswer name (inr (provider e)) days h = cc
  judge_days-IsAnswer name (inr (all_failed e)) days h = cc
  judge_days-IsAnswer name (inr canceled) days h = cc
  judge_days-IsAnswer name (inr deadline_exceeded) days h = cc
  judge_days-IsAnswer name (inr storage) days h = cc

  module _ (settings : Settings) where
    -- The result is explained by the providers: days of the one that was reached and asked, all errors
    -- of the providers, or the error of the turn that ends the loop.
    abbrev pub Fetched : Map ProviderHealth → List DaysTurn → Result (List Text) → Type 0
    Fetched health turns (answered days) =
        (t : Turn (List Text)) × Serves settings (judge_days start end) health
          (all_classified turns) t
        × ((given : List Text) × (t.answer ≡ inl given) × IsAnswer start end given days)
    Fetched health turns (stopped e) =
        ((is_empty turns ≡ true)
          × (e ≡ provider (data_error (codes "calendar_source_unavailable"))))
        ⊎ (((errors : List (Text × ProviderError)) × (e ≡ all_failed errors)
              × Exhausted settings (judge_days start end) health (all_classified turns) errors)
            ⊎ ((t : Turn (List Text)) × Ends settings (judge_days start end) health
                  (all_classified turns) t e))
    Fetched health turns panicked = ⊥

    Explained-Fetched :
        (health : Map ProviderHealth) (turns : List DaysTurn) (r : Result (List Text))
        → Explained settings (judge_days start end) health (all_classified turns) r
        → Fetched health turns r
    Explained-Fetched health turns (answered days) (t, serves, j) =
        (t, serves, judge_days-IsAnswer t.name t.answer days j)
    Explained-Fetched health turns (stopped e) x = inr x
    Explained-Fetched health turns panicked x = x

    -- `FetchTradingDays` never reads a missing health. The days that it returns are those that a
    -- provider answered, which `available` granted, where every provider before it was passed over: it
    -- was not granted, or its answer was a failure. There are some days, each is in the range and after
    -- the one before it. Otherwise it returns that there are no providers, the errors of all of them,
    -- or the error of the turn that ends the loop.
    pub fetch_trading_days-Fetched :
        (health : Map ProviderHealth) (turns : List DaysTurn)
        → Fetched health turns (fetch_trading_days settings health start end turns).1
    unfolding fetch_trading_days
    fetch_trading_days-Fetched health turns = elim (Bool-cases (is_empty turns)) [
      | inl e ↦ rw (e, fetch_trading_days) (inl (e, refl))
      | inr e ↦
          let all = all_classified turns in
          rw (e, fetch_trading_days)
            (Explained-Fetched health turns
              (attempt_loop (judge_days start end) settings health [] all).1
              (attempt_loop-Explained settings (judge_days start end) health all health [] [] all
                refl refl))
    ]
