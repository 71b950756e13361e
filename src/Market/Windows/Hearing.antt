-- ===== src/Market/Windows/Hearing.antt =====
-- What `FetchStatus` hears of the sources that it asks.
use mathlib.Core.List.{append_assoc}
use job_time_stock_watcher.Base.{
  ◌⊎◌, inl, inr, List, [], ◌∷◌, ◌++◌, none, Text, Map, text_eq_iff, ◌≡◌, refl, ap, ◌∙◌, arith,
}
use job_time_stock_watcher.Market.{
  ProviderError, SourceError, provider, all_failed, canceled, deadline_exceeded, storage,
}
use job_time_stock_watcher.Market.Health.{ProviderHealth, Settings}
use job_time_stock_watcher.Market.Attempts.{Turn, Result, stopped, accept}
use job_time_stock_watcher.Market.Attempts.Passing.{Asked, Passed, Stops}
use job_time_stock_watcher.Market.Statuses.{StatusAnswer, MergedWindow}
use job_time_stock_watcher.Market.Windows.{
  StatusWindow, base_name, validate_window, answer_of, judge_window, merge_answers,
}

module _ (settings : Settings) (code : Text) where
  -- The source may be asked, and it gave a valid window of the stock, under its own name: `m` is the
  -- health after the answer.
  pub record Used (health : Map ProviderHealth) (t : Turn StatusWindow) (a : StatusAnswer)
      (m : Map ProviderHealth) : Type 0 where
    pub asked : Asked settings health t m
    pub window : StatusWindow
    pub given : t.answer ≡ inl window
    pub valid : validate_window window ≡ none
    pub of_stock : window.code ≡ code
    pub of_source : window.source ≡ base_name t.name
    pub answer : a ≡ answer_of t.name window

  pub judge_window-Used :
      (health : Map ProviderHealth) (t : Turn StatusWindow) (a : StatusAnswer)
      (m : Map ProviderHealth) (x : StatusWindow ⊎ SourceError)
      → Asked settings health t m
      → t.answer ≡ x
      → judge_window code t.name x ≡ accept a
      → Used health t a m
  unfolding judge_window
  judge_window-Used health t a m (inl w) asked q h = record {
    asked = asked;
    window = w;
    given = q;
    valid = ground (arith, h);
    of_stock = (text_eq_iff w.code code).0 (ground (arith, h));
    of_source = (text_eq_iff w.source (base_name t.name)).0 (ground (arith, h));
    answer = ground (arith, h);
  }
  judge_window-Used health t a m (inr (provider e)) asked q h = cc
  judge_window-Used health t a m (inr (all_failed e)) asked q h = cc
  judge_window-Used health t a m (inr canceled) asked q h = cc
  judge_window-Used health t a m (inr deadline_exceeded) asked q h = cc
  judge_window-Used health t a m (inr storage) asked q h = cc

  -- Every turn was passed over with an error or gave a window, in order, each with the health that the
  -- one before left; `m` is the health at the end.
  abbrev pub Heard :
      Map ProviderHealth
      → List (Turn StatusWindow)
      → List StatusAnswer
      → List (Text × ProviderError)
      → Map ProviderHealth
      → Type 0
  Heard health [] answers errors m = (answers ≡ []) × (errors ≡ []) × (health ≡ m)
  Heard health (t ∷ turns) answers errors m =
      ((e : Text × ProviderError) × (es : List (Text × ProviderError)) × (mid : Map ProviderHealth)
        × (errors ≡ e ∷ es)
        × Passed settings (judge_window code) health t e mid
        × Heard mid turns answers es m)
      ⊎ ((a : StatusAnswer) × (rest : List StatusAnswer) × (mid : Map ProviderHealth) × (answers
            ≡ a ∷ rest)
          × Used health t a mid
          × Heard mid turns rest errors m)

  -- The turn that ends the loop: the turns before it were heard, and left the health `books`.
  pub record Ended (health : Map ProviderHealth) (turns : List (Turn StatusWindow))
      (e : SourceError) : Type 0 where
    pub heard_before : List (Turn StatusWindow)
    pub turn : Turn StatusWindow
    pub after : List (Turn StatusWindow)
    pub found : heard_before ++ (turn ∷ after) ≡ turns
    pub answers : List StatusAnswer
    pub errors : List (Text × ProviderError)
    pub books : Map ProviderHealth
    pub heard : Heard health heard_before answers errors books
    pub stops : Stops settings (judge_window code) books turn e

  -- After what was heard before: all turns were heard, or one ended the loop.
  abbrev pub Outcome :
      Map ProviderHealth
      → List (Text × ProviderError)
      → List StatusAnswer
      → List (Turn StatusWindow)
      → Result MergedWindow
      → Type 0
  Outcome health failures before turns r =
      ((answers : List StatusAnswer) × (errors : List (Text × ProviderError)) × (m : Map
          ProviderHealth)
        × Heard health turns answers errors m
        × (r ≡ merge_answers (failures ++ errors) (before ++ answers)))
      ⊎ ((e : SourceError) × Ended health turns e × (r ≡ stopped e))

  pub Outcome-passed :
      (health mid : Map ProviderHealth) (failures : List (Text × ProviderError))
      (before : List StatusAnswer) (t : Turn StatusWindow) (turns : List (Turn StatusWindow))
      (r : Result MergedWindow) (e : Text × ProviderError)
      → Passed settings (judge_window code) health t e mid
      → Outcome mid (failures ++ (e ∷ [])) before turns r
      → Outcome health failures before (t ∷ turns) r
  Outcome-passed health mid failures before t turns r e p (inl (answers, errors, m, heard, same)) =
      inl (
        answers,
        e ∷ errors,
        m,
        inl (e, errors, mid, refl, p, heard),
        same
            ∙ ap (λ fs. merge_answers fs (before ++ answers))
                (append_assoc failures (e ∷ []) errors),
      )
  Outcome-passed health mid failures before t turns r e p (inr (x, k, same)) = inr (
    x,
    record {
      heard_before = t ∷ k.heard_before;
      turn = k.turn;
      after = k.after;
      found = ap (λ us. t ∷ us) k.found;
      answers = k.answers;
      errors = e ∷ k.errors;
      books = k.books;
      heard = inl (e, k.errors, mid, refl, p, k.heard);
      stops = k.stops;
    },
    same,
  )

  pub Outcome-used :
      (health mid : Map ProviderHealth) (failures : List (Text × ProviderError))
      (before : List StatusAnswer) (t : Turn StatusWindow) (turns : List (Turn StatusWindow))
      (r : Result MergedWindow) (a : StatusAnswer)
      → Used health t a mid
      → Outcome mid failures (before ++ (a ∷ [])) turns r
      → Outcome health failures before (t ∷ turns) r
  Outcome-used health mid failures before t turns r a p (inl (answers, errors, m, heard, same)) =
      inl (
        a ∷ answers,
        errors,
        m,
        inr (a, answers, mid, refl, p, heard),
        same
            ∙ ap (λ rest. merge_answers (failures ++ errors) rest)
                (append_assoc before (a ∷ []) answers),
      )
  Outcome-used health mid failures before t turns r a p (inr (x, k, same)) = inr (
    x,
    record {
      heard_before = t ∷ k.heard_before;
      turn = k.turn;
      after = k.after;
      found = ap (λ us. t ∷ us) k.found;
      answers = a ∷ k.answers;
      errors = k.errors;
      books = k.books;
      heard = inr (a, k.answers, mid, refl, p, k.heard);
      stops = k.stops;
    },
    same,
  )
