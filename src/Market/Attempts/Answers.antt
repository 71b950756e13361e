-- ===== src/Market/Attempts/Answers.antt =====
-- Where the result of `Attempt` comes from.
use mathlib.Core.List.{append_assoc, append-nil}
use job_time_stock_watcher.Base.{
  ◌⊎◌, inl, inr, List, [], ◌∷◌, ◌++◌, ◌≡◌, refl, sym, ap, ◌∙◌, subst, Bool-cases, Option-cases,
  Text, codes, text_eq, text_eq_iff, Map,
}
use job_time_stock_watcher.Market.{
  ProviderError, provider, data_error, SourceError, all_failed, canceled, deadline_exceeded,
  storage,
}
use job_time_stock_watcher.Market.Health.{ProviderHealth, Settings, available}
use job_time_stock_watcher.Market.Attempts.{
  History, Turn, Result, answered, stopped, panicked, Verdict, accept, next, error_of, judge,
  cooling, attempt_loop, attempt,
}
use job_time_stock_watcher.Market.Attempts.Passing.{
  available_known, record_result_known, Asked, AllPassed, Reached, Exhausted, Serves, Ends,
  Explained, AllPassed-snoc, Verdict-cases,
}

module _ {A B : Type 0} (settings : Settings) (verdict : Text → A ⊎ SourceError → Verdict B) where
  pub attempt_loop-Explained :
      (start : Map ProviderHealth) (whole : List (Turn A)) (health : Map ProviderHealth)
      (done : List (Turn A)) (errors : List (Text × ProviderError)) (turns : List (Turn A))
      → done ++ turns ≡ whole
      → AllPassed settings verdict start done errors health
      → Explained settings verdict start whole (attempt_loop verdict settings health errors turns).1
  unfolding attempt_loop
  attempt_loop-Explained start whole health done errors [] w p = inl (
    errors,
    refl,
    (
      health,
      subst (λ x. AllPassed settings verdict start x errors health) (sym (append-nil done) ∙ w) p,
    ),
  )
  attempt_loop-Explained start whole health done errors (t ∷ turns) w p =
      let reached : Reached settings verdict start whole t = record {
        before = done;
        after = turns;
        errors = errors;
        books = health;
        found = w;
        passed = p;
      } in
      let w' = append_assoc done (t ∷ []) turns ∙ w in
      let (granted, health') = available t.name t.asked_at health in
      let (health'', recorded) =
        record_result_known settings t.name t.answered_at (error_of t.answer) health'
          (available_known t.name t.asked_at health) in
      elim (Option-cases (t.interrupted)) [
        | inr (e, i) ↦ rw (i, attempt_loop) (inr (t, (reached, inl i)))
        | inl i ↦ elim (Bool-cases granted) [
          | inr g ↦
              rw (i, attempt_loop, g)
                (attempt_loop-Explained start whole health' (done ++ (t ∷ []))
                  (errors ++ ((t.name, cooling) ∷ [])) turns w'
                  (AllPassed-snoc settings verdict start health health' done errors t
                    (t.name, cooling) p
                    (refl, inl (record { live = i; refused = g; books = refl }, refl))))
          | inl g ↦ elim (Option-cases (t.interrupted_after)) [
            | inr (e, a) ↦
                rw (i, attempt_loop, g, recorded, a) (inr (t, (reached, inr (i, g, inl a))))
            | inl a ↦
                let asked : Asked settings health t health'' = record {
                  live = i;
                  granted = g;
                  books = recorded;
                  live_after = a;
                } in
                elim (Verdict-cases settings verdict (verdict t.name t.answer)) [
                  | inl (h, j) ↦
                      rw (i, attempt_loop, g, recorded, a, j) (t, (reached, health'', asked), j)
                  | inr (inl (e, j)) ↦
                      rw (i, attempt_loop, g, recorded, a, j)
                        (inr (t, (reached, inr (i, g, inr (a, j)))))
                  | inr (inr (e, j)) ↦
                      rw (i, attempt_loop, g, recorded, a, j)
                        (attempt_loop-Explained start whole health'' (done ++ (t ∷ []))
                          (errors ++ ((t.name, e) ∷ [])) turns w'
                          (AllPassed-snoc settings verdict start health health'' done errors t
                            (t.name, e) p (refl, inr (asked, j))))
                ]
          ]
        ]
      ]

module _ {H : Type 0} where
  judge_accepts :
      (t : Turn (History H)) (h : History H)
      → judge t.name t.answer ≡ accept h
      → (t.answer ≡ inl h) × (h.source ≡ t.name)
  unfolding judge
  judge_accepts t h k = accepted (t.answer) k
    where
      accepted :
          (a : History H ⊎ SourceError)
          → judge t.name a ≡ accept h
          → (a ≡ inl h) × (h.source ≡ t.name)
      accepted (inl g) k = elim (Bool-cases (text_eq g.source t.name)) [
        | inl e ↦
            let same : accept g ≡ accept h = sym (rw e refl) ∙ k in
            let one : g ≡ h = cc in
            (ap (λ x. inl x) one, ap (λ x. x.source) (sym one) ∙ (text_eq_iff g.source t.name).0 e)
        | inr e ↦
            let other : next (data_error (codes "provider_metadata_mismatch")) ≡ accept h =
              sym (rw e refl) ∙ k in
            cc
      ]
      accepted (inr (provider e)) k = cc
      accepted (inr (all_failed e)) k = cc
      accepted (inr canceled) k = cc
      accepted (inr deadline_exceeded) k = cc
      accepted (inr storage) k = cc

  module _ (settings : Settings) where
    -- A history is that of a provider that it names; an error is that of all the turns, or ends the
    -- attempt.
    abbrev pub Explains : Map ProviderHealth → List (Turn (History H)) → Result (History H) → Type 0
    Explains health turns (answered h) =
        (t : Turn (History H)) × Serves settings judge health turns t
        × (t.answer ≡ inl h)
        × (h.source ≡ t.name)
    Explains health turns (stopped e) =
        ((errors : List (Text × ProviderError)) × (e ≡ all_failed errors)
          × Exhausted settings judge health turns errors)
        ⊎ ((t : Turn (History H)) × Ends settings judge health turns t e)
    Explains health turns panicked = ⊥

    Explained-Explains :
        (health : Map ProviderHealth) (turns : List (Turn (History H))) (r : Result (History H))
        → Explained settings judge health turns r
        → Explains health turns r
    Explained-Explains health turns (answered h) (t, serves, j) =
        let (from, named) = judge_accepts t h j in (t, serves, from, named)
    Explained-Explains health turns (stopped e) x = x
    Explained-Explains health turns panicked x = x

    -- `Attempt` never reads a missing health. A provider is asked exactly where `available` grants it
    -- with the health that the turns before it left, and passed over where it does not or where its
    -- answer is a failure. What `Attempt` returns is explained by the first turn that is not passed
    -- over: a history that names its own provider, which was asked, or the error that ends the attempt;
    -- only if all providers are passed over does it return all their errors, in order.
    pub attempt-Explains :
        (health : Map ProviderHealth) (turns : List (Turn (History H)))
        → Explains health turns (attempt settings health turns).1
    unfolding attempt
    attempt-Explains health turns =
        Explained-Explains health turns (attempt_loop judge settings health [] turns).1
          (attempt_loop-Explained settings judge health turns health [] [] turns refl refl)
