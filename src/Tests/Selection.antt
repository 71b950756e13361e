-- ===== src/Tests/Selection.antt =====
-- Runs of `Execute` with an engine that ranks two stocks.
use job_time_stock_watcher.Base.{
  ℕ, ◌+◌, ◌*◌, ◌^◌, true, false, inl, inr, List, [], ◌∷◌, none, some, Text, codes, text_eq,
  text_ltb, valid_date, weekend_date, date_text, pos, ◌≡◌, refl,
}
use job_time_stock_watcher.Chanlun.Input.{finite, nan}
use job_time_stock_watcher.Market.Windows.{valid_code}
use job_time_stock_watcher.Market.Histories.{DayHistory}
use job_time_stock_watcher.Market.Minutes.{RawMinute, MinuteHistory}
use job_time_stock_watcher.Secondstage.{
  ModelInput, BlendPlan, duplicate_model, bad_sum, one, validate_model_inputs, validate_blend,
}
use job_time_stock_watcher.Selection.{
  Descriptor, Config, Input, SecondCandidate, Report, selected_stock, second_stock, mixed_snapshot,
}
use job_time_stock_watcher.Selection.Execution.{
  Engine, Turn, prepared, with_provenance, default_engine, execute,
}
use job_time_stock_watcher.Selection.Accepted.{IsAccepted, execute-IsAccepted}

monday_text : date_text 739620 ≡ codes "2026-01-05"
unfolding date_text
monday_text = refl

saturday : weekend_date (codes "2026-01-03") ≡ true
unfolding weekend_date
saturday = refl

leap_day : valid_date (codes "2024-02-29") ≡ true
unfolding valid_date
leap_day = refl

abbrev first_code : Text
first_code = codes "sh600000"

abbrev second_code : Text
second_code = codes "sz000001"

abbrev daily : Text → Text → DayHistory
daily code adjust = record {
  version = 1;
  code = code;
  name = codes "name";
  source = codes "sina";
  adjust = adjust;
  data_field = codes "day";
  volume_unit = codes "provider_raw";
  as_of = codes "2026-01-05";
  fetched_at = 5;
  bars =
      record {
        date = codes "2026-01-05";
        open_price = finite 10;
        close = finite 11;
        high = finite 12;
        low = finite 9;
        volume = finite 100;
      }
      ∷ [];
}

abbrev bar_ending : ℕ → RawMinute
bar_ending minute = record {
  end = 739620 * 86400 + minute * 60;
  open_price = finite 10;
  high = finite 12;
  low = finite 9;
  close = finite 11;
  volume = finite 100;
  final = true;
}

abbrev minutes : ℕ → List RawMinute → MinuteHistory
minutes period bars = record {
  version = 1;
  code = first_code;
  source = codes "tencent";
  period = period;
  base_period = 5;
  adjust = codes "none";
  volume_unit = codes "provider_raw";
  fetched_at = 739620 * 86400 + 600 * 60;
  bars = bars;
}

abbrev half_hour : RawMinute
half_hour = record {
  end = 739620 * 86400 + 600 * 60;
  open_price = finite 10;
  high = finite 12;
  low = finite 9;
  close = finite 11;
  volume = finite 600;
  final = true;
}

abbrev five_minutes : List RawMinute
five_minutes =
    bar_ending 575
    ∷ bar_ending 580
    ∷ bar_ending 585
    ∷ bar_ending 590
    ∷ bar_ending 595
    ∷ bar_ending 600
    ∷ []

abbrev plan : BlendPlan
plan = record {
  id = codes "even";
  first_stage_weight = finite (5 * 10 ^ 8);
  models = record { name = codes "jev"; weight = finite (5 * 10 ^ 8) } ∷ [];
  group_size = pos 10;
  calibration = codes "none";
  calibration_param = finite 0;
  risk_eta = finite 0;
}

abbrev model : ModelInput
model = record {
  name = codes "jev";
  status = codes "ok";
  scores = (first_code, record { adjacent15 = finite 5; full15_top12 = finite 7 }) ∷ [];
}

abbrev config : Config
config = record {
  version = 1;
  data_dir = codes "/data";
  stocks = first_code ∷ second_code ∷ [];
  daily_adjust = codes "none";
  analysis_engine = codes "auto";
  strategy_enabled = true;
  first_stage_enabled = true;
  second_stage_enabled = true;
  selection_enabled = true;
}

abbrev input : Input
input = record {
  version = 0;
  config = config;
  histories = daily first_code (codes "none") ∷ daily second_code (codes "none") ∷ [];
  raw = daily second_code (codes "none") ∷ daily first_code (codes "none") ∷ [];
  minutes = minutes 5 five_minutes ∷ minutes 30 (half_hour ∷ []) ∷ [];
  models = none;
  as_of = codes "2026-01-05";
  target = codes "2026-01-06";
  now = 7;
}

abbrev descriptor : Descriptor
descriptor = record {
  id = codes "short_horizon_v1";
  version = 1;
  periods = codes "day" ∷ codes "30" ∷ codes "5" ∷ [];
  adjust = codes "none";
  raw_required = true;
  final_only = true;
  missing_policy = codes "exclude";
}

abbrev ranked : Text → ℕ → SecondCandidate
ranked code rank = record {
  code = code;
  rank = rank;
  first_percentile = finite one;
  percentiles = nan ∷ finite 3 ∷ [];
  blend_score = finite 4;
}

abbrev answer : List Text → List SecondCandidate → Report
answer selected seconds = record {
  provenance = none;
  version = 3;
  id = codes "r1";
  as_of = codes "2026-01-05";
  target = codes "2026-01-06";
  strategy = codes "short_horizon_v1";
  selection_enabled = true;
  adjust = codes "none";
  selected = selected;
  ranking = first_code ∷ second_code ∷ [];
  first_stage = some (record {
    version = 1;
    status = codes "ok";
    as_of = codes "2026-01-05";
    target = codes "2026-01-06";
    budget = 5;
    candidates =
        record { code = first_code; rank = 1 } ∷ record { code = second_code; rank = 2 } ∷ [];
  });
  second_stage = some (record {
    version = 1;
    status = codes "ok";
    as_of = codes "2026-01-05";
    target = codes "2026-01-06";
    ranker = codes "blend_weighted_v1";
    top_n = 2;
    blend = plan;
    candidates = seconds;
  });
}

abbrev engine : Report → Engine
engine r = record { descriptor = descriptor; analyze = λ _. inr r }

abbrev turn : Turn
turn = record { over_before = false; over_after = false; loaded = model ∷ [] }

abbrev digest : Config → Text × Text
digest c = (codes "0a", codes "parameters")

abbrev good : Report
good = answer (second_code ∷ []) (ranked second_code 2 ∷ ranked first_code 1 ∷ [])

described : default_engine config ≡ some descriptor
unfolding default_engine text_eq
described = refl

plan_accepted : validate_blend plan ≡ none
unfolding validate_blend text_eq
plan_accepted = refl

weights_must_sum :
    validate_blend (record plan { first_stage_weight = finite (4 * 10 ^ 8) }) ≡ some bad_sum
unfolding validate_blend text_eq
weights_must_sum = refl

model_named_twice : validate_model_inputs (model ∷ model ∷ []) ≡ some duplicate_model
unfolding validate_model_inputs text_eq
model_named_twice = refl

executed :
    execute some (λ _. true) digest (engine good) turn (codes "b") input
    ≡ inr (with_provenance digest descriptor (prepared turn input).config (codes "b") good)
unfolding execute text_eq text_ltb valid_date weekend_date date_text valid_code
executed = refl

ranks_must_differ :
    execute some
      (λ _. true)
      digest
      (engine (answer [] (ranked second_code 1 ∷ ranked first_code 1 ∷ [])))
      turn
      (codes "b")
      input
    ≡ inl second_stock
unfolding execute text_eq text_ltb valid_date weekend_date date_text valid_code
ranks_must_differ = refl

unknown_stock_refused :
    execute some
      (λ _. true)
      digest
      (engine (answer (codes "sh600001" ∷ []) []))
      turn
      (codes "b")
      input
    ≡ inl selected_stock
unfolding execute text_eq text_ltb valid_date weekend_date date_text valid_code
unknown_stock_refused = refl

relabelled_minutes_refused :
    execute some
      (λ _. true)
      digest
      (engine good)
      turn
      (codes "b")
      (record input {
        minutes =
            minutes 5 five_minutes
            ∷ minutes 30 (record half_hour { volume = finite 500 } ∷ [])
            ∷ [];
      })
    ≡ inl mixed_snapshot
unfolding execute text_eq text_ltb valid_date weekend_date date_text valid_code
relabelled_minutes_refused = refl

execute-IsAccepted_example :
    IsAccepted some digest
      (engine good)
      turn
      (codes "b")
      input
      (with_provenance digest descriptor (prepared turn input).config (codes "b") good)
execute-IsAccepted_example =
    execute-IsAccepted some (λ _. true) digest (engine good) turn (codes "b") input
      (with_provenance digest descriptor (prepared turn input).config (codes "b") good) executed
