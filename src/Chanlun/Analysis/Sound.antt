-- ===== src/Chanlun/Analysis/Sound.antt =====
-- What `Analyze` reports.
use job_time_stock_watcher.Base.{
  ℕ, ◌≤◌, Bool, true, false, List, [], ◌∷◌, ◌≡◌, refl, arith, inl, ltb, ◌==◌, if◌then◌else◌, All,
  Adjacent,
}
use job_time_stock_watcher.Chanlun.{Bar, Stroke}
use job_time_stock_watcher.Chanlun.Input.{RawBar, validate_bars}
use job_time_stock_watcher.Chanlun.Merging.{merge_loop, merge_inclusions}
use job_time_stock_watcher.Chanlun.Fractals.{detect_loop, detect_fractals}
use job_time_stock_watcher.Chanlun.Strokes.Making.{IsStroke}
use job_time_stock_watcher.Chanlun.Strokes.Complete.{Chained, build_strokes_built}
use job_time_stock_watcher.Chanlun.Zones.Standing.{IsZone, build_zones-IsZone}
use job_time_stock_watcher.Chanlun.Analysis.{
  Analysis, analysis, finish, finished_only, report, analyze_valid, analyze,
  default_min_stroke_bars,
}

IsStroke-marked :
    (bars : List Bar) (min_bars : ℕ) (s : Stroke) (done : Bool)
    → IsStroke bars min_bars s
    → IsStroke bars min_bars (record s { finished = done })
IsStroke-marked bars min_bars s done h = record {
  start_genuine = h.start_genuine;
  end_genuine = h.end_genuine;
  ends = h.ends;
  directed = h.directed;
  counted = h.counted;
  long = h.long;
  apart = h.apart;
  spans = h.spans;
}

finish-IsStroke :
    (bars : List Bar) (min_bars : ℕ) (ss : List Stroke)
    → All (IsStroke bars min_bars) ss
    → All (IsStroke bars min_bars) (finish ss)
unfolding finish
finish-IsStroke bars min_bars [] h = tt
finish-IsStroke bars min_bars (s ∷ []) h = (IsStroke-marked bars min_bars s false h.0, tt)
finish-IsStroke bars min_bars (s ∷ t ∷ ss) h =
    (IsStroke-marked bars min_bars s true h.0, finish-IsStroke bars min_bars (t ∷ ss) h.1)

finish-Chained : (ss : List Stroke) → Adjacent Chained ss → Adjacent Chained (finish ss)
unfolding finish
finish-Chained [] h = tt
finish-Chained (s ∷ []) h = tt
finish-Chained (s ∷ t ∷ []) h = (h.0, tt)
finish-Chained (s ∷ t ∷ u ∷ ss) h = (h.0, finish-Chained (t ∷ u ∷ ss) h.1)

-- The finished strokes are all the strokes but the last.
abbrev pub AllButLast : List Stroke → List Stroke → Type 0
AllButLast [] fs = fs ≡ []
AllButLast (s ∷ []) fs = (s.finished ≡ false) × (fs ≡ [])
AllButLast (s ∷ t ∷ ss) [] = false ≡ true
AllButLast (s ∷ t ∷ ss) (f ∷ fs) = (s.finished ≡ true) × (f ≡ s) × AllButLast (t ∷ ss) fs

finished_only-finish : (ss : List Stroke) → AllButLast (finish ss) (finished_only (finish ss))
unfolding finish finished_only
finished_only-finish [] = refl
finished_only-finish (s ∷ []) = (refl, refl)
finished_only-finish (s ∷ t ∷ []) = (refl, refl, finished_only-finish (t ∷ []))
finished_only-finish (s ∷ t ∷ u ∷ ss) = (refl, refl, finished_only-finish (t ∷ u ∷ ss))

-- An analysis of the bars.
pub record IsAnalysis (bars : List Bar) (min_bars : ℕ) (a : Analysis) : Type 0 where
  pub merged : a.merged_bars ≡ merge_inclusions bars
  pub marked : a.fractals ≡ detect_fractals a.merged_bars
  pub drawn : All (IsStroke a.merged_bars min_bars) a.strokes
  pub chained : Adjacent Chained a.strokes
  pub finished : AllButLast a.strokes a.finished_strokes
  pub zoned : All (IsZone a.finished_strokes) a.zones

analyze_valid_analyzes :
    (bars : List Bar) (min_bars : ℕ)
    → (a : Analysis) × (analyze_valid bars min_bars ≡ analysis a) × IsAnalysis bars min_bars a
unfolding analyze_valid
analyze_valid_analyzes [] min_bars = (
  record {
    version = 1;
    merged_bars = [];
    fractals = [];
    strokes = [];
    finished_strokes = [];
    zones = [];
    last_close = 0;
  },
  refl,
  record {
    merged = unfold merge_inclusions merge_loop in refl;
    marked = unfold detect_fractals detect_loop in refl;
    drawn = tt;
    chained = tt;
    finished = refl;
    zoned = tt;
  },
)
analyze_valid_analyzes (bar ∷ bars) min_bars =
    let merged = merge_inclusions (bar ∷ bars) in
    let (built, e, strokes, chained) = build_strokes_built merged min_bars in
    (
      report (bar ∷ bars) merged (finish built),
      rw (e, analyze_valid) refl,
      record {
        merged = refl;
        marked = refl;
        drawn = finish-IsStroke merged min_bars built strokes;
        chained = finish-Chained built chained;
        finished = finished_only-finish built;
        zoned = build_zones-IsZone (finished_only (finish built));
      },
    )

-- The minimum that a given minimum stands for.
abbrev pub effective : ℕ → ℕ
effective n = if n == 0 then default_min_stroke_bars else n

-- `Analyze` reports an analysis of every list of bars that `validate` accepts, unless the minimum of
-- bars of a stroke is 1 or 2. Its strokes are well formed, and each starts no earlier than the one
-- before it ends; the finished ones are all but the last, and every zone stands on finished strokes.
pub analyze_succeeds :
    (rs : List RawBar) (bars : List Bar) (min_bars : ℕ)
    → 3 ≤ effective min_bars
    → validate_bars rs ≡ inl bars
    → (a : Analysis) × (analyze rs min_bars ≡ analysis a) × IsAnalysis bars (effective min_bars) a
unfolding analyze
analyze_succeeds rs bars min_bars h k =
    let (a, e, sound) = analyze_valid_analyzes bars (effective min_bars) in
    let long : ltb (effective min_bars) 3 ≡ false = ground arith in (a, rw (long, k, e) refl, sound)
