-- ===== src/Tests/History.antt =====
-- Two frozen windows that overlap, from two sources.
use job_time_stock_watcher.Base.{
  ℕ, true, false, inl, inr, List, [], ◌∷◌, none, some, Text, codes, text_eq, text_ltb, sort_by,
  is_empty, ◌≡◌, refl, ◌↔◌,
}
use job_time_stock_watcher.Calendar.History.{
  History, validate_range, bad_days, wrong_digest, stamped, new_history, validate_history,
  history_of, texts_of,
}
use job_time_stock_watcher.Calendar.History.Making.{IsHistoryOf, new_history-IsHistoryOf}
use job_time_stock_watcher.Calendar.History.Coverage.{Coverage, partly}
use job_time_stock_watcher.Calendar.History.Dataset.{
  windows_of, coverage, dataset_trading_days, disagree, freeze, not_covered,
}
use job_time_stock_watcher.Calendar.History.Dataset.Covering.{IsExact, coverage-IsExact}
use job_time_stock_watcher.Calendar.History.Dataset.Listing.{
  IsListing, dataset_trading_days-IsListing,
}
use job_time_stock_watcher.Calendar.History.Dataset.Freezing.{IsFrozen, freeze_reads_back}
use job_time_stock_watcher.Calendar.History.Fetching.{Turn, fetch}
use job_time_stock_watcher.Calendar.History.Fetching.Answering.{Answers, Answered, fetch_iff}

-- A hash that keeps the bounds and the days.
abbrev sum : ℕ → Text → ℕ → ℕ → List ℕ → Text
sum version source from through days = from ∷ through ∷ days

sum_full : (v : ℕ) (s : Text) (a b : ℕ) (ds : List ℕ) → is_empty (sum v s a b ds) ≡ false
sum_full v s a b ds = refl

abbrev early_window : History
early_window =
    stamped sum (history_of sum (codes "baostock") (some 10) (some 16) (10 ∷ 11 ∷ 15 ∷ []) 500)

abbrev late_window : History
late_window = stamped sum (history_of sum (codes "tushare") (some 14) (some 20) (15 ∷ 18 ∷ []) 900)

abbrev dataset : List History
dataset = late_window ∷ early_window ∷ []

abbrev partial_answer : Coverage
partial_answer = record {
  from = 8;
  through = 22;
  status = partly;
  complete = false;
  missing = record { from = 8; through = 9 } ∷ record { from = 21; through = 22 } ∷ [];
}

partial : coverage sum dataset (some 8) (some 22) ≡ inr partial_answer
unfolding coverage text_eq sort_by
partial = refl

listed : dataset_trading_days sum dataset (some 11) (some 18) ≡ inr (11 ∷ 15 ∷ 18 ∷ [])
unfolding dataset_trading_days text_eq sort_by
listed = refl

uncovered : dataset_trading_days sum dataset (some 8) (some 22) ≡ inl (not_covered partial_answer)
unfolding dataset_trading_days text_eq sort_by
uncovered = refl

abbrev stray_window : History
stray_window = stamped sum (history_of sum (codes "tushare") (some 14) (some 20) (15 ∷ 16 ∷ []) 900)

conflict : coverage sum (stray_window ∷ early_window ∷ []) (some 11) (some 18) ≡ inl (disagree 16)
unfolding coverage text_eq sort_by
conflict = refl

tampered :
    validate_history sum (record early_window { days = some (texts_of (10 ∷ 15 ∷ [])) })
    ≡ some wrong_digest
unfolding validate_history text_eq
tampered = refl

made :
    new_history sum (codes "baostock") (some 10) (some 16) (some 15 ∷ some 10 ∷ some 11 ∷ []) 500
    ≡ inr early_window
unfolding new_history sort_by
made = refl

twice :
    new_history sum (codes "baostock") (some 10) (some 16) (some 15 ∷ some 15 ∷ []) 500
    ≡ inl bad_days
unfolding new_history sort_by
twice = refl

joined :
    freeze sum dataset (some 11) (some 18)
    ≡ inr (
        stamped sum
          (history_of sum (codes "baostock+tushare") (some 11) (some 18) (11 ∷ 15 ∷ 18 ∷ []) 900))
unfolding freeze text_eq sort_by text_ltb
joined = refl

abbrev down : Turn
down = record {
  over_before = false;
  name = codes "tushare";
  has_source = true;
  days = inl (codes "timeout");
  over_after = false;
  now = 400;
}

abbrev up : Turn
up = record {
  over_before = false;
  name = codes "baostock";
  has_source = true;
  days = inr (some 15 ∷ some 10 ∷ some 11 ∷ []);
  over_after = false;
  now = 500;
}

fetched : fetch sum (some 10) (some 16) (down ∷ up ∷ []) ≡ inr early_window
unfolding fetch sort_by
fetched = refl

new_history-IsHistoryOf_example :
    IsHistoryOf sum sum_full
      (codes "baostock")
      (some 10)
      (some 16)
      (some 15 ∷ some 10 ∷ some 11 ∷ [])
      early_window
new_history-IsHistoryOf_example =
    new_history-IsHistoryOf sum sum_full (codes "baostock") (some 10) (some 16)
      (some 15 ∷ some 10 ∷ some 11 ∷ []) 500 early_window made

coverage-IsExact_example :
    (some 8 ≡ some (partial_answer.from))
    × (some 22 ≡ some (partial_answer.through))
    × IsExact (windows_of dataset) partial_answer
coverage-IsExact_example = coverage-IsExact sum dataset (some 8) (some 22) partial_answer partial

dataset_trading_days-IsListing_example : IsListing (windows_of dataset) 11 18 (11 ∷ 15 ∷ 18 ∷ [])
dataset_trading_days-IsListing_example =
    dataset_trading_days-IsListing sum dataset 11 18 (11 ∷ 15 ∷ 18 ∷ []) listed

freeze_reads_back_example : IsFrozen sum dataset 11 18 (11 ∷ 15 ∷ 18 ∷ [])
freeze_reads_back_example = freeze_reads_back sum sum_full dataset 11 18 (11 ∷ 15 ∷ 18 ∷ []) listed

fetch_iff_example :
    ((fetch sum (some 10) (some 16) (down ∷ up ∷ []) ≡ inr early_window) ↔ (
      (validate_range (some 10) (some 16) ≡ none)
      × Answered sum (some 10) (some 16) (down ∷ up ∷ []) early_window))
    × (fetch sum (some 10) (some 16) (down ∷ up ∷ []) ≡ inr early_window
        → (validate_history sum early_window ≡ none)
          × (early_window.from ≡ some 10)
          × (early_window.through ≡ some 16)
          × ((t : Turn) × (early_window.source ≡ t.name)
              × Answers sum (some 10) (some 16) t early_window))
fetch_iff_example = fetch_iff sum (some 10) (some 16) sum_full (down ∷ up ∷ []) early_window
