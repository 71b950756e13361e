-- ===== src/Calendar/History/Making.antt =====
-- What `NewHistory` makes passes `Validate`.
use job_time_stock_watcher.Base.{
  ℕ, false, inr, List, Option, none, some, Text, is_empty, ltb, sort_by, ◌≡◌, refl, sym, subst,
}
use job_time_stock_watcher.Calendar.History.{
  History, validate_history, new_history, days_in, listed_days, stamped, history_of,
}
use job_time_stock_watcher.Calendar.History.Valid.{
  new_history-Made, stamped-valid, listed_days-texts,
}

module _ (hash : ℕ → Text → ℕ → ℕ → List ℕ → Text)
    (nonempty : (v : ℕ) (s : Text) (a b : ℕ) (ds : List ℕ)
      → is_empty (hash v s a b ds) ≡ false) where
  pub record IsHistoryOf (source : Text) (from through : Option ℕ) (days : List (Option ℕ))
      (h : History) : Type 0 where
    pub given : List ℕ
    pub read : days_in days ≡ some given
    pub valid : validate_history hash h ≡ none
    pub named : h.source ≡ source
    pub starts : h.from ≡ from
    pub ends : h.through ≡ through
    pub listed : listed_days h ≡ sort_by ltb given

  -- A history that `NewHistory` returns passes `Validate` if the hash is never the empty text. It has
  -- the source and the bounds that were given, and the days that were given, sorted; each is a date.
  pub new_history-IsHistoryOf :
      (source : Text) (from through : Option ℕ) (days : List (Option ℕ)) (fetched_at : ℕ)
      (h : History)
      → new_history hash source from through days fetched_at ≡ inr h
      → IsHistoryOf source from through days h
  new_history-IsHistoryOf source from through days fetched_at h q =
      let m = new_history-Made hash source from through fetched_at days h q in
      let sorted = sort_by ltb m.given in
      let g = history_of hash source from through sorted fetched_at in
      subst (IsHistoryOf source from through days) (sym m.made) (record {
        given = m.given;
        read = m.read;
        valid = stamped-valid hash g refl m.valid (nonempty g.version source _ _ _);
        named = refl;
        starts = refl;
        ends = refl;
        listed = listed_days-texts (stamped hash g) sorted refl;
      })
