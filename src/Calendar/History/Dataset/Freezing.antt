-- ===== src/Calendar/History/Dataset/Freezing.antt =====
-- A frozen window reads back as the windows that it was made of.
use job_time_stock_watcher.Base.{
  ℕ, ◌<◌, ◌≤◌, true, false, List, [], ◌∷◌, Option, none, some, Text, text_ltb, any-sort_by, sort_by,
  is_empty, ltb, ◌==◌, All, All-In, ◌≡◌, refl, sym, ap, ◌∙◌, subst, inr, arith,
}
use job_time_stock_watcher.Calendar.History.{
  History, validate_range, validate_history, new_history, accept_days, history_of, stamped, day_in,
  texts_of, listed_days, is_inside, is_source, known_days,
}
use job_time_stock_watcher.Calendar.History.Valid.{
  validate_history-IsValid, new_history-days, days_in-texts_of,
}
use job_time_stock_watcher.Calendar.History.Making.{new_history-IsHistoryOf}
use job_time_stock_watcher.Calendar.History.Coverage.{Window, cover}
use job_time_stock_watcher.Calendar.History.Dataset.{
  window_of, windows_of, has_day, is_apart, sources_in, latest_fetch, join_names, seen_days,
  first_invalid, validate_consistency, disagreement_with, coverage, dataset_trading_days, freeze,
}
use job_time_stock_watcher.Calendar.History.Dataset.Covering.{AllCovered, cover-full, range_days}
use job_time_stock_watcher.Calendar.History.Dataset.Seen.{
  Ascends, sort_by-Ascends, seen_days-Fresh, seen_days-has,
}
use job_time_stock_watcher.Calendar.History.Dataset.Ascending.{
  Ascends-unique, sort_by-same, Ascends-unequal, all-within,
}
use job_time_stock_watcher.Calendar.History.Dataset.Listing.{
  dataset_trading_days-Listed, dataset_trading_days-IsListing, any-In,
}
use job_time_stock_watcher.Calendar.History.Dataset.Naming.{sorted_sources, latest_fetch-met}

module _ (hash : ℕ → Text → ℕ → ℕ → List ℕ → Text) where
  windows-sourced :
      (d : List History)
      → first_invalid hash d ≡ none
      → All (λ w. is_source w.source ≡ true) (windows_of d)
  windows-sourced [] h = tt
  windows-sourced (g ∷ gs) h =
      let valid = validate_history-IsValid hash g (ground (arith, h)) in
      (valid.sourced, windows-sourced gs (ground (arith, h)))

  windows-fetched :
      (d : List History) → first_invalid hash d ≡ none → All (λ w. 0 < w.fetched_at) (windows_of d)
  windows-fetched [] h = tt
  windows-fetched (g ∷ gs) h =
      let valid = validate_history-IsValid hash g (ground (arith, h)) in
      let set = valid.fetched in (ground (arith, set), windows-fetched gs (ground (arith, h)))

  listed_when :
      (d : List History) (from through : Option ℕ)
      → validate_range from through ≡ none
      → first_invalid hash d ≡ none
      → validate_consistency (windows_of d) ≡ none
      → (cover (windows_of d) (day_in from) (day_in through)).complete ≡ true
      → dataset_trading_days hash d from through
        ≡ inr (sort_by ltb (seen_days (day_in from) (day_in through) [] (windows_of d)))
  unfolding dataset_trading_days coverage
  listed_when d from through r v c k = rw (r, v, c, k, dataset_trading_days, coverage) refl

  -- Of one valid window, the days of its range are its days.
  alone :
      (h : History) (from through : ℕ) (days : List ℕ)
      → validate_range (some from) (some through) ≡ none
      → validate_history hash h ≡ none
      → h.from ≡ some from
      → h.through ≡ some through
      → listed_days h ≡ days
      → Ascends days
      → ((x : ℕ) → has_day days x ≡ true → is_inside from through x ≡ true)
      → dataset_trading_days hash (h ∷ []) (some from) (some through) ≡ inr days
  alone h from through days r v a b l asc within =
      let ws = window_of h ∷ [] in
      let start : day_in h.from ≡ from = ap day_in a in
      let end : day_in h.through ≡ through = ap day_in b in
      let valid : first_invalid hash (h ∷ []) ≡ none = rw (v, first_invalid) refl in
      let agreed : validate_consistency ws ≡ none =
        unfold validate_consistency disagreement_with in refl in
      let covered : AllCovered ws from through = λ x k. ground (arith, start, end, k) in
      let full = (cover-full ws from through).1 covered in
      let seen = seen_days from through [] ws in
      let has : (x : ℕ) → has_day (sort_by ltb seen) x ≡ has_day days x = λ x.
        let here = seen_days-has from through ws [] x in
        let inside = within x in
        let known : has_day (listed_days h) x ≡ has_day days x = ap (λ ds. has_day ds x) l in
        any-sort_by ltb (λ y. y == x) seen ∙ ground (arith, here, inside, known) in
      let same =
        Ascends-unique (sort_by ltb seen) days
          (sort_by-Ascends seen (seen_days-Fresh from through ws [] tt)) asc has in
      listed_when (h ∷ []) (some from) (some through) r valid agreed full ∙ ap inr same

  -- What a window that meets the range gives to the frozen one.
  record Met (ws : List Window) (from through : ℕ) : Type 0 where
    names_full : is_empty (sort_by text_ltb (sources_in from through [] ws)) ≡ false
    named : is_source (join_names (sort_by text_ltb (sources_in from through [] ws))) ≡ true
    fetched : (latest_fetch from through 0 ws == 0) ≡ false

  covered-Met :
      (d : List History) (from through : ℕ)
      → first_invalid hash d ≡ none
      → from ≤ through
      → AllCovered (windows_of d) from through
      → Met (windows_of d) from through
  covered-Met d from through v r c =
      let ws = windows_of d in
      let (w, p, k) =
        any-In (λ u. is_inside u.from u.through from) ws (c from (ground (arith, r))) in
      let met : is_apart from through w ≡ false = ground (arith, k, r) in
      let sources = sorted_sources from through ws w (windows-sourced d v) p met in
      let late = latest_fetch-met from through ws 0 w p met in
      let set = All-In (λ u. 0 < u.fetched_at) w ws (windows-fetched d v) p in
      record { names_full = sources.0; named = sources.1; fetched = ground (arith, late, set) }

  -- A frozen history, valid, from which the same days are read.
  pub record IsFrozen (d : List History) (from through : ℕ) (days : List ℕ) : Type 0 where
    pub history : History
    pub made : freeze hash d (some from) (some through) ≡ inr history
    pub valid : validate_history hash history ≡ none
    pub reads : dataset_trading_days hash (history ∷ []) (some from) (some through) ≡ inr days

  freeze_made :
      (d : List History) (from through : ℕ) (days : List ℕ) (h : History)
      → dataset_trading_days hash d (some from) (some through) ≡ inr days
      → is_empty (sort_by text_ltb (sources_in from through [] (windows_of d))) ≡ false
      → new_history hash
          (join_names (sort_by text_ltb (sources_in from through [] (windows_of d))))
          (some from)
          (some through)
          (texts_of days)
          (latest_fetch from through 0 (windows_of d))
        ≡ inr h
      → freeze hash d (some from) (some through) ≡ inr h
  unfolding freeze
  freeze_made d from through days h t n m = rw (t, n, m, freeze) refl

  module _
      (nonempty : (v : ℕ) (s : Text) (a b : ℕ) (ds : List ℕ)
        → is_empty (hash v s a b ds) ≡ false) where
    -- Where `Dataset.TradingDays` returns the days of a range, `Freeze` makes one history of the range
    -- that is valid and of which `TradingDays` returns the same days, if the hash is never the empty text.
    pub freeze_reads_back :
        (d : List History) (from through : ℕ) (days : List ℕ)
        → dataset_trading_days hash d (some from) (some through) ≡ inr days
        → IsFrozen d from through days
    freeze_reads_back d from through days t =
        let ws = windows_of d in
        let l = dataset_trading_days-Listed hash d (some from) (some through) days t in
        let listing = dataset_trading_days-IsListing hash d from through days t in
        let range = (range_days (some from) (some through) l.passed.ranged).2 in
        let met = covered-Met d from through l.passed.valid range listing.covered in
        let asc : Ascends days = subst Ascends (sym l.answer) (
          sort_by-Ascends (seen_days from through [] ws) (seen_days-Fresh from through ws [] tt)) in
        let names = join_names (sort_by text_ltb (sources_in from through [] ws)) in
        let at = latest_fetch from through 0 ws in
        let read = days_in-texts_of days in
        let accepted =
          new_history-days hash names (some from) (some through) at (texts_of days) days
            l.passed.ranged met.named met.fetched read in
        let inside = all-within (is_inside from through) days listing.within in
        let unequal = Ascends-unequal days asc in
        let h = stamped hash (history_of hash names (some from) (some through) days at) in
        let passes : accept_days hash names (some from) (some through) at (sort_by ltb days)
            ≡ inr h =
          rw (sort_by-same days asc, inside, unequal) refl in
        let made =
          new_history-IsHistoryOf hash nonempty names (some from) (some through) (texts_of days) at
            h (accepted ∙ passes) in
        record {
          history = h;
          made = freeze_made d from through days h t met.names_full (accepted ∙ passes);
          valid = made.valid;
          reads =
              alone h from through days l.passed.ranged made.valid refl refl (ap known_days read)
                asc listing.within;
        }
