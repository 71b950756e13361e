-- ===== src/Market/Attempts/Passing.antt =====
-- What a turn comes to, from the health that the turns before it left.
use job_time_stock_watcher.Base.{
  ℕ, ◌⊎◌, inl, inr, true, false, List, [], ◌∷◌, ◌++◌, Option, none, some, ◌≡◌, refl, sym, subst,
  Option-cases, Text, text_eq_refl, Map, lookup, insert, lookup-insert,
}
use job_time_stock_watcher.Market.{ProviderError, SourceError, all_failed}
use job_time_stock_watcher.Market.Health.{
  ProviderHealth, Settings, healthy, grant, available, record_result, settle,
}
use job_time_stock_watcher.Market.Attempts.{
  Turn, Result, answered, stopped, panicked, Verdict, accept, stop, next, error_of, cooling,
}

pub available_known :
    (name : Text) (now : ℕ) (health : Map ProviderHealth)
    → (h : ProviderHealth) × (lookup name (available name now health).1 ≡ some h)
unfolding available
available_known name now health = elim (Option-cases (lookup name health)) [
  | inl n ↦ (healthy, rw (n, available, lookup-insert, text_eq_refl) refl)
  | inr (h, n) ↦ ((grant now h).1, rw (n, available, lookup-insert, text_eq_refl) refl)
]

pub record_result_known :
    (settings : Settings) (name : Text) (now : ℕ) (err : Option SourceError)
    (health : Map ProviderHealth)
    → ((h : ProviderHealth) × (lookup name health ≡ some h))
    → (health' : Map ProviderHealth) × (record_result settings name now err health ≡ some health')
unfolding record_result
record_result_known settings name now err health (h, e) =
    (insert name (settle settings now err h) health, rw (e, record_result) refl)

module _ {A : Type 0} (settings : Settings) where
  -- The provider may not be asked: `m` is the health then.
  pub record Cools (health : Map ProviderHealth) (t : Turn A) (m : Map ProviderHealth)
      : Type 0 where
    pub live : t.interrupted ≡ none
    pub refused : (available t.name t.asked_at health).0 ≡ false
    pub books : m ≡ (available t.name t.asked_at health).1

  -- The provider may be asked, and its answer is used: `m` is the health after the answer.
  pub record Asked (health : Map ProviderHealth) (t : Turn A) (m : Map ProviderHealth)
      : Type 0 where
    pub live : t.interrupted ≡ none
    pub granted : (available t.name t.asked_at health).0 ≡ true
    pub books :
        record_result settings t.name t.answered_at
          (error_of t.answer)
          (available t.name t.asked_at health).1
        ≡ some m
    pub live_after : t.interrupted_after ≡ none

module _ {A B : Type 0} (settings : Settings) (verdict : Text → A ⊎ SourceError → Verdict B) where
  -- The provider was passed over: it may not be asked, or this is what its answer had wrong.
  abbrev pub Passed :
      Map ProviderHealth → Turn A → Text × ProviderError → Map ProviderHealth → Type 0
  Passed health t e m =
      (t.name ≡ e.0)
      × ((Cools settings health t m × (e.1 ≡ cooling))
          ⊎ (Asked settings health t m × (verdict t.name t.answer ≡ next e.1)))

  -- Each provider was passed over, with these errors, each with the health that the one before left.
  abbrev pub AllPassed :
      Map ProviderHealth → List (Turn A) → List (Text × ProviderError) → Map ProviderHealth → Type 0
  AllPassed health [] [] m = health ≡ m
  AllPassed health [] (_ ∷ _) m = ⊥
  AllPassed health (_ ∷ _) [] m = ⊥
  AllPassed health (t ∷ turns) (e ∷ es) m =
      (mid : Map ProviderHealth) × Passed health t e mid × AllPassed mid turns es m

  -- The turn ends the attempt with the error: the caller's context is over before it, or the provider
  -- may be asked and the context is over then, or its answer ends the attempt.
  abbrev pub Stops : Map ProviderHealth → Turn A → SourceError → Type 0
  Stops health t e =
      (t.interrupted ≡ some e)
      ⊎ ((t.interrupted ≡ none)
          × ((available t.name t.asked_at health).0 ≡ true)
          × ((t.interrupted_after ≡ some e)
              ⊎ ((t.interrupted_after ≡ none) × (verdict t.name t.answer ≡ stop e))))

  -- The turn at which all turns before it were passed over, and the health then.
  pub record Reached (health : Map ProviderHealth) (turns : List (Turn A)) (t : Turn A)
      : Type 0 where
    pub before : List (Turn A)
    pub after : List (Turn A)
    pub errors : List (Text × ProviderError)
    pub books : Map ProviderHealth
    pub found : before ++ (t ∷ after) ≡ turns
    pub passed : AllPassed health before errors books

  -- Every provider was passed over, with these errors.
  abbrev pub Exhausted : Map ProviderHealth → List (Turn A) → List (Text × ProviderError) → Type 0
  Exhausted health turns errors = (m : Map ProviderHealth) × AllPassed health turns errors m

  -- The first turn that is not passed over is asked.
  abbrev pub Serves : Map ProviderHealth → List (Turn A) → Turn A → Type 0
  Serves health turns t =
      (reached : Reached health turns t) × (m : Map ProviderHealth) × Asked settings (reached.books)
        t m

  -- The first turn that is not passed over ends the attempt.
  abbrev pub Ends : Map ProviderHealth → List (Turn A) → Turn A → SourceError → Type 0
  Ends health turns t e = (reached : Reached health turns t) × Stops (reached.books) t e

  -- The result is the verdict on the first turn that is not passed over, or all errors of the turns.
  abbrev pub Explained : Map ProviderHealth → List (Turn A) → Result B → Type 0
  Explained health turns (answered h) =
      (t : Turn A) × Serves health turns t × (verdict t.name t.answer ≡ accept h)
  Explained health turns (stopped e) =
      ((errors : List (Text × ProviderError)) × (e ≡ all_failed errors)
        × Exhausted health turns errors)
      ⊎ ((t : Turn A) × Ends health turns t e)
  Explained health turns panicked = ⊥

  pub AllPassed-snoc :
      (health m m' : Map ProviderHealth) (turns : List (Turn A)) (es : List (Text × ProviderError))
      (t : Turn A) (e : Text × ProviderError)
      → AllPassed health turns es m
      → Passed m t e m'
      → AllPassed health (turns ++ (t ∷ [])) (es ++ (e ∷ [])) m'
  AllPassed-snoc health m m' [] [] t e h k = (m', subst (λ x. Passed x t e m') (sym h) k, refl)
  AllPassed-snoc health m m' [] (_ ∷ _) t e h k = absurd h
  AllPassed-snoc health m m' (_ ∷ _) [] t e h k = absurd h
  AllPassed-snoc health m m' (u ∷ turns) (f ∷ es) t e (mid, p, h) k =
      (mid, p, AllPassed-snoc mid m m' turns es t e h k)

  abbrev pub Verdict-cases_of : Verdict B → Type 0
  Verdict-cases_of v =
      ((h : B) × (v ≡ accept h))
      ⊎ (((e : SourceError) × (v ≡ stop e)) ⊎ ((e : ProviderError) × (v ≡ next e)))

  pub Verdict-cases : (v : Verdict B) → Verdict-cases_of v
  Verdict-cases (accept h) = inl (h, refl)
  Verdict-cases (stop e) = inr (inl (e, refl))
  Verdict-cases (next e) = inr (inr (e, refl))
