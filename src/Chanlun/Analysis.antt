-- ===== src/Chanlun/Analysis.antt =====
-- internal/chanlun/chanlun.go: `Analyze`, and what it reports last.
pub mod Sound
use job_time_stock_watcher.Base.{
  ℕ, Bool, true, false, ◌⊎◌, inl, inr, List, [], ◌∷◌, Option, none, some, ltb, ◌==◌, if◌then◌else◌,
  get_last?,
}
use job_time_stock_watcher.Chanlun.{Bar, Fractal, Stroke, Zone}
use job_time_stock_watcher.Chanlun.Input.{RawBar, Invalid, short_stroke, validate_bars}
use job_time_stock_watcher.Chanlun.Merging.{merge_inclusions}
use job_time_stock_watcher.Chanlun.Fractals.{detect_fractals}
use job_time_stock_watcher.Chanlun.Strokes.{build_strokes}
use job_time_stock_watcher.Chanlun.Zones.{build_zones}

pub record Analysis : Type 0 where
  pub version : ℕ
  pub merged_bars : List Bar
  pub fractals : List Fractal
  pub strokes : List Stroke
  pub finished_strokes : List Stroke
  pub zones : List Zone
  pub last_close : ℕ

-- `panicked` is an index out of range.
pub data Outcome : Type 0 where
  analysis : Analysis → Outcome
  refused : Invalid → Outcome
  panicked : Outcome

abbrev pub default_min_stroke_bars : ℕ
default_min_stroke_bars = 6

-- Every stroke but the last is finished.
unfoldable pub finish : List Stroke → List Stroke
finish [] = []
finish (s ∷ []) = record s { finished = false } ∷ []
finish (s ∷ t ∷ ss) = record s { finished = true } ∷ finish (t ∷ ss)

unfoldable pub finished_only : List Stroke → List Stroke
finished_only [] = []
finished_only (s ∷ ss) = let rest = finished_only ss in if s.finished then s ∷ rest else rest

abbrev last_close_of : List Bar → ℕ
last_close_of bars = elim (get_last? bars) [ none ↦ 0 | some b ↦ b.close ]

abbrev pub report : List Bar → List Bar → List Stroke → Analysis
report bars merged strokes = record {
  version = 1;
  merged_bars = merged;
  fractals = detect_fractals merged;
  strokes = strokes;
  finished_strokes = finished_only strokes;
  zones = build_zones (finished_only strokes);
  last_close = last_close_of bars;
}

unfoldable pub analyze_valid : List Bar → ℕ → Outcome
unfolding finish
analyze_valid [] min_bars = analysis (record {
  version = 1;
  merged_bars = [];
  fractals = [];
  strokes = [];
  finished_strokes = [];
  zones = [];
  last_close = 0;
})
analyze_valid (bar ∷ bars) min_bars =
    let merged = merge_inclusions (bar ∷ bars) in
    let fractals = detect_fractals merged in
    elim (build_strokes fractals merged min_bars) [
      | none ↦ panicked
      | some built ↦ analysis (report (bar ∷ bars) merged (finish built))
    ]

unfoldable pub analyze : List RawBar → ℕ → Outcome
unfolding analyze_valid
analyze raw min_stroke_bars =
    let min_bars = if min_stroke_bars == 0 then default_min_stroke_bars else min_stroke_bars in
    if ltb min_bars 3
    then refused short_stroke
    else elim (validate_bars raw) [ inr x ↦ refused x | inl bars ↦ analyze_valid bars min_bars ]

unfoldable pub latest_zone : Analysis → Option Zone
latest_zone a = get_last? a.zones

unfoldable pub last_finished_stroke : Analysis → Option Stroke
last_finished_stroke a = get_last? a.finished_strokes

unfoldable pub last_fractal : Analysis → Option Fractal
last_fractal a = get_last? a.fractals
