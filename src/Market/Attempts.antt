-- ===== src/Market/Attempts.antt =====
-- internal/market/sources.go: `Attempt`, which asks the providers in order. Its loop takes what is done
-- with an answer as a parameter, since `FetchTradingDays` has the same loop. A `Turn` is what a provider
-- and the clock do when it is its turn: they are not the code's.
pub mod Passing
pub mod Answers
use job_time_stock_watcher.Base.{
  ℕ, Bool, true, false, ◌⊎◌, inl, inr, List, [], ◌∷◌, ◌++◌, Option, none, some, Text, codes,
  text_eq, Map, if◌then◌else◌,
}
use job_time_stock_watcher.Market.{
  Failure, ProviderError, failure, data_error, SourceError, provider, all_failed, canceled,
  deadline_exceeded, storage,
}
use job_time_stock_watcher.Market.Health.{ProviderHealth, Settings, available, record_result}

abbrev pub cooling : ProviderError
cooling = failure (record { status = 0; kind = codes "cooldown"; reason = [] })

module _ {ℓ} where
  -- A history, and the source that it names.
  pub record History (H : Type ℓ) : Type ℓ where
    pub source : Text
    pub content : H

  -- `interrupted` and `interrupted_after` are the caller's `ctx.Err()` before and after the request.
  pub record Turn (A : Type ℓ) : Type ℓ where
    pub name : Text
    pub interrupted : Option SourceError
    pub asked_at : ℕ
    pub answer : A ⊎ SourceError
    pub answered_at : ℕ
    pub interrupted_after : Option SourceError

  pub data Result (B : Type ℓ) : Type ℓ where
    answered : B → Result B
    stopped : SourceError → Result B
    panicked : Result B

  -- What an answer comes to: a result, an error that ends the attempt, or a failure of the provider.
  pub data Verdict (B : Type ℓ) : Type ℓ where
    accept : B → Verdict B
    stop : SourceError → Verdict B
    next : ProviderError → Verdict B

module _ {ℓ} {A : Type ℓ} where
  abbrev pub error_of : A ⊎ SourceError → Option SourceError
  error_of (inl _) = none
  error_of (inr e) = some e

module _ {ℓ} {A B : Type ℓ} (verdict : Text → A ⊎ SourceError → Verdict B) where
  -- `failures` is in the order of the providers; `verdict` is what the caller does with an answer.
  unfoldable pub attempt_loop :
      Settings
      → Map ProviderHealth
      → List (Text × ProviderError)
      → List (Turn A)
      → Map ProviderHealth × Result B
  attempt_loop settings health failures [] = (health, stopped (all_failed failures))
  attempt_loop settings health failures (t ∷ turns) =
      let (granted, health') = available t.name t.asked_at health in
      let skip = attempt_loop settings health' (failures ++ ((t.name, cooling) ∷ [])) turns in
      elim (t.interrupted) [
        | some e ↦ (health, stopped e)
        | none ↦
            if granted
            then elim (record_result settings t.name t.answered_at (error_of t.answer) health') [
              | none ↦ (health', panicked)
              | some health'' ↦ elim (t.interrupted_after) [
                | some e ↦ (health'', stopped e)
                | none ↦ elim (verdict t.name t.answer) [
                  | accept h ↦ (health'', answered h)
                  | stop e ↦ (health'', stopped e)
                  | next e ↦ attempt_loop settings health'' (failures ++ ((t.name, e) ∷ [])) turns
                ]
              ]
            ]
            else skip
      ]

module _ {ℓ} {H : Type ℓ} where
  unfoldable pub judge : Text → History H ⊎ SourceError → Verdict (History H)
  judge name (inl h) =
      if text_eq h.source name
      then accept h
      else next (data_error (codes "provider_metadata_mismatch"))
  judge name (inr (provider e)) = next e
  judge name (inr e) = stop e

  unfoldable pub attempt :
      Settings
      → Map ProviderHealth
      → List (Turn (History H))
      → Map ProviderHealth × Result (History H)
  unfolding attempt_loop judge
  attempt settings health turns = attempt_loop judge settings health [] turns
