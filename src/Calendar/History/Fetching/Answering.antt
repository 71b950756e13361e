-- ===== src/Calendar/History/Fetching/Answering.antt =====
-- Whose answer `Sources.Fetch` returns.
use job_time_stock_watcher.Base.{
  ℕ, true, false, not, Bool-cases, ◌||◌, List, [], ◌∷◌, ◌++◌, Sum-cases, Option, none, Text,
  is_empty, All, ◌≡◌, refl, ap, ◌∙◌, ◌⊎◌, inl, inr, ◌↔◌, arith,
}
use job_time_stock_watcher.Calendar.History.{
  History, HistoryError, validate_range, validate_history, new_history,
}
use job_time_stock_watcher.Calendar.History.Making.{new_history-IsHistoryOf}
use job_time_stock_watcher.Calendar.History.Fetching.{
  Turn, Failure, bad_provider, provider_error, bad_answer, FetchError, bad_range, no_providers,
  over, failed, Round, next, stop, found, made_of, ask, after_failure, fetch_loop, fetch,
}

module _ (hash : ℕ → Text → ℕ → ℕ → List ℕ → Text) (from through : Option ℕ) where
  -- The provider answers with an error, or with days that `NewHistory` refuses.
  abbrev pub Refused : Turn → Type 0
  Refused t =
      ((e : Text) × (t.days ≡ inl e))
      ⊎ ((days : List (Option ℕ)) × (e : HistoryError) × (t.days ≡ inr days)
          × (new_history hash t.name from through days t.now ≡ inl e))

  -- A provider fails while the context is not over: it has no name or no source, or its answer is
  -- refused.
  abbrev pub Fails : Turn → Type 0
  Fails t =
      (t.over_before ≡ false)
      × (((is_empty t.name || not t.has_source) ≡ true) ⊎ ((t.over_after ≡ false) × Refused t))

  -- A provider answers while the context is not over, and `NewHistory` makes a history of its days.
  pub record Answers (t : Turn) (h : History) : Type 0 where
    pub days : List (Option ℕ)
    pub usable : (is_empty t.name || not t.has_source) ≡ false
    pub live_before : t.over_before ≡ false
    pub live_after : t.over_after ≡ false
    pub given : t.days ≡ inr days
    pub made : new_history hash t.name from through days t.now ≡ inr h

  -- The turn that a history comes from.
  pub record Answered (turns : List Turn) (h : History) : Type 0 where
    pub before : List Turn
    pub turn : Turn
    pub after : List Turn
    pub split : turns ≡ before ++ turn ∷ after
    pub passed : All Fails before
    pub answers : Answers turn h

  made_next :
      (name : Text) (r : HistoryError ⊎ History) (f : Failure)
      → made_of name r ≡ next f
      → (e : HistoryError) × (r ≡ inl e)
  made_next name (inl e) f q = (e, refl)
  made_next name (inr g) f q = cc

  made_found :
      (name : Text) (r : HistoryError ⊎ History) (h : History)
      → made_of name r ≡ found h
      → r ≡ inr h
  made_found name (inl e) h q = cc
  made_found name (inr g) h q = cc

  ask-Refused :
      (t : Turn) (f : Failure)
      → t.over_before ≡ false
      → (is_empty t.name || not t.has_source) ≡ false
      → t.over_after ≡ false
      → ask hash from through t ≡ next f
      → Refused t
  unfolding ask
  ask-Refused t f b u a q = elim (Sum-cases (t.days)) [
    | inl (e, k) ↦ inl (e, k)
    | inr (days, k) ↦
        let (e, same) =
          made_next t.name (new_history hash t.name from through days t.now) f
            (ground (arith, q, k, b, u, a)) in
        inr (days, e, k, same)
  ]

  ask-Fails : (t : Turn) (f : Failure) → ask hash from through t ≡ next f → Fails t
  unfolding ask
  ask-Fails t f q =
      let live : t.over_before ≡ false = ground (arith, q) in
      (
        live,
        elim (Bool-cases (is_empty t.name || not t.has_source)) [
          | inl bad ↦ inl bad
          | inr usable ↦
              let after : t.over_after ≡ false = ground (arith, q, usable) in
              inr (after, ask-Refused t f live usable after q)
        ],
      )

  ask-Answers : (t : Turn) (h : History) → ask hash from through t ≡ found h → Answers t h
  unfolding ask
  ask-Answers t h q = elim (Sum-cases (t.days)) [
    | inl (e, k) ↦ let impossible : false ≡ true = ground (arith, q, k) in cc
    | inr (days, k) ↦ record {
      days = days;
      usable = ground (arith, q);
      live_before = ground (arith, q);
      live_after = ground (arith, q);
      given = k;
      made =
          made_found t.name (new_history hash t.name from through days t.now) h
            (ground (arith, q, k));
    }
  ]

  Refused-ask :
      (t : Turn)
      → t.over_before ≡ false
      → (is_empty t.name || not t.has_source) ≡ false
      → t.over_after ≡ false
      → Refused t
      → (f : Failure) × (ask hash from through t ≡ next f)
  unfolding ask
  Refused-ask t b u a (inl (e, k)) = (provider_error t.name e, ground (arith, b, u, a, k))
  Refused-ask t b u a (inr (days, e, k, same)) =
      (bad_answer t.name e, ground (arith, b, u, a, k, ap (made_of t.name) same))

  Fails-ask : (t : Turn) → Fails t → (f : Failure) × (ask hash from through t ≡ next f)
  unfolding ask
  Fails-ask t (b, inl bad) = (bad_provider, ground (arith, b, bad))
  Fails-ask t (b, inr (a, refused)) = elim (Bool-cases (is_empty t.name || not t.has_source)) [
    | inl bad ↦ (bad_provider, ground (arith, b, bad))
    | inr usable ↦ Refused-ask t b usable a refused
  ]

  Answers-ask : (t : Turn) (h : History) → Answers t h → ask hash from through t ≡ found h
  unfolding ask
  Answers-ask t h a =
      ground (arith, a.usable, a.live_before, a.live_after, a.given, ap (made_of t.name) a.made)

  Round-cases :
      (r : Round) → ((f : Failure) × (r ≡ next f)) ⊎ ((r ≡ stop) ⊎ ((h : History) × (r ≡ found h)))
  Round-cases (next f) = inl (f, refl)
  Round-cases stop = inr (inl refl)
  Round-cases (found h) = inr (inr (h, refl))

  after-inr :
      (f : Failure) (r : FetchError ⊎ History) (h : History) → after_failure f r ≡ inr h → r ≡ inr h
  after-inr f (inl (failed fs)) h q = cc
  after-inr f (inl (bad_range e)) h q = cc
  after-inr f (inl no_providers) h q = cc
  after-inr f (inl over) h q = cc
  after-inr f (inr g) h q = q

  loop-Answered :
      (turns : List Turn) (h : History)
      → fetch_loop hash from through turns ≡ inr h
      → Answered turns h
  unfolding fetch_loop
  loop-Answered [] h q = cc
  loop-Answered (t ∷ ts) h q = elim (Round-cases (ask hash from through t)) [
    | inl (f, e) ↦
        let rest : after_failure f (fetch_loop hash from through ts) ≡ inr h =
          ground (arith, q, e) in
        let a = loop-Answered ts h (after-inr f (fetch_loop hash from through ts) h rest) in
        record {
          before = t ∷ a.before;
          turn = a.turn;
          after = a.after;
          split = ap (λ us. t ∷ us) a.split;
          passed = (ask-Fails t f e, a.passed);
          answers = a.answers;
        }
    | inr (inl e) ↦ let impossible : inl over ≡ inr h = ground (arith, q, e) in cc
    | inr (inr (g, e)) ↦ record {
      before = [];
      turn = t;
      after = ts;
      split = refl;
      passed = tt;
      answers = ask-Answers t h (ground (arith, q, e));
    }
  ]

  loop_next :
      (t : Turn) (ts : List Turn) (f : Failure)
      → ask hash from through t ≡ next f
      → fetch_loop hash from through (t ∷ ts) ≡ after_failure f (fetch_loop hash from through ts)
  unfolding fetch_loop
  loop_next t ts f e = rw (e, fetch_loop) refl

  loop_found :
      (t : Turn) (ts : List Turn) (h : History)
      → ask hash from through t ≡ found h
      → fetch_loop hash from through (t ∷ ts) ≡ inr h
  unfolding fetch_loop
  loop_found t ts h e = rw (e, fetch_loop) refl

  answered_loop :
      (before : List Turn) (turn : Turn) (after : List Turn) (h : History)
      → All Fails before
      → Answers turn h
      → fetch_loop hash from through (before ++ turn ∷ after) ≡ inr h
  answered_loop [] turn after h p a = loop_found turn after h (Answers-ask turn h a)
  answered_loop (t ∷ ts) turn after h p a =
      let ih = answered_loop ts turn after h p.1 a in
      let (f, e) = Fails-ask t p.0 in loop_next t (ts ++ turn ∷ after) f e ∙ ap (after_failure f) ih

  not_empty :
      (before : List Turn) (turn : Turn) (after : List Turn)
      → is_empty (before ++ turn ∷ after) ≡ false
  not_empty [] turn after = refl
  not_empty (t ∷ ts) turn after = refl

  fetch-Answered :
      (turns : List Turn) (h : History)
      → fetch hash from through turns ≡ inr h
      → (validate_range from through ≡ none) × Answered turns h
  unfolding fetch
  fetch-Answered turns h q = (ground (arith, q), loop-Answered turns h (ground (arith, q)))

  Answered-fetch :
      (turns : List Turn) (h : History)
      → validate_range from through ≡ none
      → Answered turns h
      → fetch hash from through turns ≡ inr h
  unfolding fetch
  Answered-fetch turns h r a =
      let some_turn : is_empty turns ≡ false =
        ap is_empty a.split ∙ not_empty a.before a.turn a.after in
      let loop : fetch_loop hash from through turns ≡ inr h =
        ap (fetch_loop hash from through) a.split
        ∙ answered_loop a.before a.turn a.after h a.passed a.answers in
      rw (r, some_turn, loop, fetch) refl

  -- If the hash is never the empty text, `Sources.Fetch` returns a history exactly where the range is
  -- one, a provider answers, in a context that is not over before or after that, with days of which
  -- `NewHistory` makes that history, and every provider before it failed, in a context that was not
  -- over: without a name or a source, with an error, or with days that `NewHistory` refuses. That
  -- history is valid, of the range and named after its provider.
  pub fetch_iff :
      ((v : ℕ) (s : Text) (a b : ℕ) (ds : List ℕ) → is_empty (hash v s a b ds) ≡ false)
      → (turns : List Turn) (h : History)
      → ((fetch hash from through turns ≡ inr h)
          ↔ ((validate_range from through ≡ none) × Answered turns h))
        × (fetch hash from through turns ≡ inr h
            → (validate_history hash h ≡ none)
              × (h.from ≡ from)
              × (h.through ≡ through)
              × ((t : Turn) × (h.source ≡ t.name) × Answers t h))
  fetch_iff nonempty turns h = (
    (fetch-Answered turns h, λ a. Answered-fetch turns h a.0 a.1),
    λ q.
        let a = (fetch-Answered turns h q).1 in
        let k =
          new_history-IsHistoryOf hash nonempty a.turn.name from through a.answers.days a.turn.now h
            a.answers.made in
        (k.valid, k.starts, k.ends, (a.turn, k.named, a.answers)),
  )
