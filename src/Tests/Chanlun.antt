-- ===== src/Tests/Chanlun.antt =====
-- Bars whose prices go up and down four times.
use job_time_stock_watcher.Base.{
  ℕ, ◌+◌, inl, inr, true, List, [], ◌∷◌, some, ◌≡◌, ◌↔◌, refl, arith, suc, All, Adjacent,
  AdjacentTail, length,
}
use job_time_stock_watcher.Chanlun.{Bar, Stroke, Zone, up, top, bottom}
use job_time_stock_watcher.Chanlun.Input.{
  finite, negative, RawBar, unordered, validate_bars, short_stroke, invalid_number,
}
use job_time_stock_watcher.Chanlun.Input.Accepting.{Reads, IsOhlc, MayFollow, validate_bars_iff}
use job_time_stock_watcher.Chanlun.Merging.{merge_inclusions}
use job_time_stock_watcher.Chanlun.Merging.Separation.{Apart, merge_inclusions_separates}
use job_time_stock_watcher.Chanlun.Fractals.{detect_fractals, fractal_of}
use job_time_stock_watcher.Chanlun.Fractals.Genuine.{IsFractal, detect_fractals-IsFractal}
use job_time_stock_watcher.Chanlun.Fractals.Alternation.{Follows, detect_fractals_alternates}
use job_time_stock_watcher.Chanlun.Strokes.{build_strokes}
use job_time_stock_watcher.Chanlun.Strokes.Making.{IsStroke}
use job_time_stock_watcher.Chanlun.Strokes.Complete.{Chained, build_strokes_built}
use job_time_stock_watcher.Chanlun.Zones.{build_zones}
use job_time_stock_watcher.Chanlun.Zones.Standing.{IsZone, build_zones-IsZone}
use job_time_stock_watcher.Chanlun.Analysis.{
  Analysis, analysis, refused, Outcome, finished_only, analyze,
}
use job_time_stock_watcher.Chanlun.Analysis.Sound.{IsAnalysis, effective, analyze_succeeds}

abbrev bar_at : ℕ → ℕ → ℕ → Bar
bar_at t l h = record {
  time = t;
  open_price = l;
  high = h;
  low = l;
  close = h;
  volume = 10;
  raw_bars = 1;
}

abbrev raw_of : Bar → RawBar
raw_of b = record {
  time = b.time;
  open_price = finite b.open_price;
  high = finite b.high;
  low = finite b.low;
  close = finite b.close;
  volume = finite b.volume;
  raw_bars = b.raw_bars;
}

abbrev raws_of : List Bar → List RawBar
raws_of [] = []
raws_of (b ∷ bs) = raw_of b ∷ raws_of bs

-- One bar for each low price, ten steps high.
abbrev bars_of : ℕ → List ℕ → List Bar
bars_of t [] = []
bars_of t (l ∷ ls) = bar_at t l (l + 10) ∷ bars_of (suc t) ls

abbrev waves : List Bar
waves = bars_of 1 (
    30 ∷ 20 ∷ 30 ∷ 40 ∷ 50 ∷ 60 ∷ 50 ∷ 40 ∷ 30 ∷ 18 ∷ 28 ∷ 38 ∷ 48 ∷ 62 ∷ 52 ∷ 42 ∷ 32 ∷ 16 ∷ 26
    ∷ 36 ∷ 46 ∷ 64 ∷ 54 ∷ [])

-- Two bars, and one inside the second.
abbrev nested : List Bar
nested = bar_at 1 20 50 ∷ bar_at 2 45 60 ∷ bar_at 3 48 55 ∷ []

abbrev counts : Outcome → List ℕ
counts (analysis a) =
    length a.merged_bars
    ∷ length a.fractals
    ∷ length a.strokes
    ∷ length a.finished_strokes
    ∷ length a.zones
    ∷ a.last_close
    ∷ []
counts _ = []

abbrev bounds : List Zone → List (ℕ × ℕ × ℕ)
bounds [] = []
bounds (z ∷ zs) = (z.lower, z.upper, z.strokes) ∷ bounds zs

abbrev zones_of : Outcome → List Zone
zones_of (analysis a) = a.zones
zones_of _ = []

analyze-waves : counts (analyze (raws_of waves) 5) ≡ 23 ∷ 6 ∷ 5 ∷ 4 ∷ 1 ∷ 64 ∷ []
unfolding analyze validate_bars build_strokes detect_fractals merge_inclusions finished_only
    build_zones
analyze-waves = refl

zone_of_waves : bounds (zones_of (analyze (raws_of waves) 5)) ≡ (20, 70, 4) ∷ []
unfolding analyze validate_bars build_strokes detect_fractals merge_inclusions finished_only
    build_zones
zone_of_waves = refl

analyze_short : analyze (raws_of waves) 2 ≡ refused short_stroke
unfolding analyze
analyze_short = refl

analyze_negative :
    analyze (record (raw_of (bar_at 1 20 30)) { volume = negative 1 } ∷ []) 0
    ≡ refused invalid_number
unfolding analyze validate_bars
analyze_negative = refl

-- Two bars of the zero time are accepted.
accepts_unset_times :
    validate_bars (raws_of (bar_at 0 20 30 ∷ bar_at 0 25 35 ∷ []))
    ≡ inl (bar_at 0 20 30 ∷ bar_at 0 25 35 ∷ [])
unfolding validate_bars
accepts_unset_times = refl

refuses_repeated_times :
    validate_bars (raws_of (bar_at 1 20 30 ∷ bar_at 1 25 35 ∷ [])) ≡ inr unordered
unfolding validate_bars
refuses_repeated_times = refl

merge_nested : length (merge_inclusions nested) ≡ 2
unfolding merge_inclusions
merge_nested = refl

analyze_succeeds_example :
    (a : Analysis) × (analyze (raws_of waves) 5 ≡ analysis a) × IsAnalysis waves (effective 5) a
analyze_succeeds_example =
    analyze_succeeds (raws_of waves) waves 5 (omega arith) (unfold validate_bars in refl)

build_strokes_built_example :
    (strokes : List Stroke) × (build_strokes (detect_fractals waves) waves 5 ≡ some strokes)
    × All (IsStroke waves 5) strokes
    × Adjacent Chained strokes
build_strokes_built_example = build_strokes_built waves 5

abbrev stroke_between : ℕ → ℕ → Stroke
stroke_between l h = record {
  direction = up;
  start = fractal_of bottom l (bar_at 1 l h) 1;
  end = fractal_of top h (bar_at 7 l h) 7;
  high = h;
  low = l;
  merged_bars = 9;
  finished = true;
}

abbrev apart_strokes : List Stroke
apart_strokes =
    stroke_between 20 60
    ∷ stroke_between 30 60
    ∷ stroke_between 30 50
    ∷ stroke_between 70 90
    ∷ stroke_between 65 85
    ∷ stroke_between 60 80
    ∷ []

build_zones_apart : bounds (build_zones apart_strokes) ≡ (30, 50, 3) ∷ (70, 80, 3) ∷ []
unfolding build_zones
build_zones_apart = refl

build_zones-IsZone_example : All (IsZone apart_strokes) (build_zones apart_strokes)
build_zones-IsZone_example = build_zones-IsZone apart_strokes

detect_fractals-IsFractal_example : All (IsFractal waves) (detect_fractals waves)
detect_fractals-IsFractal_example = detect_fractals-IsFractal waves

detect_fractals_alternates_example : Adjacent Follows (detect_fractals waves)
detect_fractals_alternates_example = detect_fractals_alternates waves

merge_inclusions_separates_example : AdjacentTail Apart (merge_inclusions nested)
merge_inclusions_separates_example = merge_inclusions_separates nested

validate_bars_iff_example :
    (validate_bars (raws_of nested) ≡ inl nested)
    ↔ (Reads (raws_of nested) nested × All IsOhlc nested × Adjacent MayFollow nested)
validate_bars_iff_example = validate_bars_iff (raws_of nested) nested
