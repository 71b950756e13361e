-- ===== src/Calendar/History/Fetching.antt =====
-- internal/calendar/history.go: `Sources.Fetch` asks one provider after the other. What a provider
-- answers, whether the caller's context is over before and after that, and the clock are data of a
-- `Turn`; an error of a provider is a text.
pub mod Answering
use job_time_stock_watcher.Base.{
  ℕ, Bool, true, false, not, ◌||◌, List, [], ◌∷◌, ◌++◌, Option, none, some, Text, is_empty,
  if◌then◌else◌, All, ◌≡◌, ◌≢◌, refl, sym, ap, ◌∙◌, subst, ◌⊎◌, inl, inr, ◌↔◌, arith,
}
use job_time_stock_watcher.Calendar.History.{
  History, HistoryError, validate_range, validate_history, new_history,
}
use job_time_stock_watcher.Calendar.History.Making.{IsHistoryOf, new_history-IsHistoryOf}

pub record Turn : Type 0 where
  pub over_before : Bool
  pub name : Text
  pub has_source : Bool
  pub days : Text ⊎ List (Option ℕ)
  pub over_after : Bool
  pub now : ℕ

pub data Failure : Type 0 where
  bad_provider : Failure
  provider_error : Text → Text → Failure
  bad_answer : Text → HistoryError → Failure

pub data FetchError : Type 0 where
  bad_range : HistoryError → FetchError
  no_providers over : FetchError
  failed : List Failure → FetchError

-- What the loop makes of a turn: the next turn, the end of the context, or a history.
pub data Round : Type 0 where
  next : Failure → Round
  stop : Round
  found : History → Round

abbrev pub made_of : Text → HistoryError ⊎ History → Round
made_of name (inl e) = next (bad_answer name e)
made_of name (inr h) = found h

abbrev pub after_failure : Failure → FetchError ⊎ History → FetchError ⊎ History
after_failure f (inl (failed fs)) = inl (failed (f ∷ fs))
after_failure f other = other

module _ (hash : ℕ → Text → ℕ → ℕ → List ℕ → Text) (from through : Option ℕ) where
  unfoldable pub ask : Turn → Round
  unfolding new_history
  ask t =
      if t.over_before
      then stop
      else if is_empty t.name || not t.has_source
      then next bad_provider
      else if t.over_after
      then stop
      else elim (t.days) [
        | inl e ↦ next (provider_error t.name e)
        | inr days ↦ made_of t.name (new_history hash t.name from through days t.now)
      ]

  unfoldable pub fetch_loop : List Turn → FetchError ⊎ History
  unfolding ask
  fetch_loop [] = inl (failed [])
  fetch_loop (t ∷ ts) =
      let rest = fetch_loop ts in
      elim (ask t) [ next f ↦ after_failure f rest | stop ↦ inl over | found h ↦ inr h ]

  unfoldable pub fetch : List Turn → FetchError ⊎ History
  unfolding fetch_loop validate_range
  fetch turns = elim (validate_range from through) [
    | some e ↦ inl (bad_range e)
    | none ↦ if is_empty turns then inl no_providers else fetch_loop turns
  ]
