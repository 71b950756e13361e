-- ===== src/Chanlun/Strokes.antt =====
-- internal/chanlun/chanlun.go: `buildStrokes`, `selectStrokeEnd` and `fractalContains`. The loop's
-- index `start` is the list of the fractals from there on.
pub mod Wellformed
pub mod Making
pub mod Seeking
pub mod Complete
use mathlib.Core.List.{reverse}
use job_time_stock_watcher.Base.{
  ℕ, zero, suc, ◌+◌, ◌-◌, Bool, true, false, ◌&&◌, ◌||◌, List, [], ◌∷◌, Option, none, some, ltb,
  leb, ◌==◌, if◌then◌else◌, min, max, get_elem?, length,
}
use job_time_stock_watcher.Chanlun.{Mark, top, bottom, Direction, up, down, Bar, Fractal, Stroke}
use job_time_stock_watcher.Chanlun.Fractals.{same_mark}

-- A fractal of the same mark that ends the search: it is more extreme than the first.
abbrev pub breaks : Fractal → Fractal → Bool
breaks first candidate = elim (first.mark) [
  | bottom ↦ ltb candidate.low first.low
  | top ↦ ltb first.high candidate.high
]

-- A fractal of the other mark on the wrong side of the first.
abbrev pub misplaced : Fractal → Fractal → Bool
misplaced first candidate = elim (first.mark) [
  | bottom ↦ leb candidate.price first.price
  | top ↦ leb first.price candidate.price
]

abbrev pub improves : Fractal → Fractal → Fractal → Bool
improves first selected candidate = elim (first.mark) [
  | bottom ↦ ltb selected.high candidate.high
  | top ↦ ltb candidate.low selected.low
]

abbrev pub better : Fractal → Option Fractal → Fractal → Fractal
better first none candidate = candidate
better first (some selected) candidate =
    if improves first selected candidate then candidate else selected

-- `selected` is none until `found`.
unfoldable pub select_loop : Fractal → Option Fractal → List Fractal → Option Fractal
select_loop first selected [] = selected
select_loop first selected (candidate ∷ rest) =
    let skip = select_loop first selected rest in
    let take = select_loop first (some (better first selected candidate)) rest in
    if leb candidate.index first.index
    then skip
    else if same_mark candidate.mark first.mark
    then if breaks first candidate then selected else skip
    else if misplaced first candidate
    then skip
    else take

unfoldable pub select_stroke_end : Fractal → List Fractal → Option Fractal
unfolding select_loop
select_stroke_end first candidates = select_loop first none candidates

abbrev pub fractal_contains : Fractal → Fractal → Bool
fractal_contains a b =
    (ltb b.high a.high && ltb a.low b.low) || (ltb a.high b.high && ltb b.low a.low)

-- `==` on the structs.
abbrev pub fractal_eq : Fractal → Fractal → Bool
fractal_eq a b =
    same_mark a.mark b.mark
    && a.time == b.time
    && a.high == b.high
    && a.low == b.low
    && a.price == b.price
    && a.index == b.index
    && a.start == b.start
    && a.end == b.end

-- The highest high and the lowest low of `n` bars from index `i` on, and of what came before; `none`
-- where an index is out of range.
unfoldable pub extremes : List Bar → ℕ → ℕ → ℕ → ℕ → Option (ℕ × ℕ)
extremes bars i zero hi lo = some (hi, lo)
extremes bars i (suc n) hi lo = elim (get_elem? bars i) [
  | none ↦ none
  | some b ↦ extremes bars (i + 1) n (max hi b.high) (min lo b.low)
]

abbrev pub stroke_of : Fractal → Fractal → ℕ → ℕ → Stroke
stroke_of first end hi lo = record {
  direction = elim (first.mark) [ top ↦ down | bottom ↦ up ];
  start = first;
  end = end;
  high = hi;
  low = lo;
  merged_bars = end.end + 1 - first.start;
  finished = false;
}

unfoldable pub make_stroke : List Bar → Fractal → Fractal → Option Stroke
unfolding extremes
make_stroke bars first end = elim (get_elem? bars first.start) [
  | none ↦ none
  | some b ↦ elim (extremes bars (first.start + 1) (end.end - first.start) b.high b.low) [
    | none ↦ none
    | some (hi, lo) ↦ some (stroke_of first end hi lo)
  ]
]

-- The search for the end among the later fractals: the list from it on.
unfoldable pub seek : Fractal → List Fractal → List Fractal
seek end [] = []
seek end (f ∷ fs) = let rest = seek end fs in if fractal_eq f end then f ∷ fs else rest

abbrev pub too_short : Fractal → Fractal → ℕ → Bool
too_short first end min_bars =
    fractal_contains first end || ltb (end.end + 1 - first.start) min_bars

-- `none` where the fuel runs out or an index is out of range.
unfoldable pub stroke_loop : ℕ → List Bar → ℕ → List Fractal → List Stroke → Option (List Stroke)
unfolding select_stroke_end make_stroke seek
stroke_loop zero bars min_bars fs out = none
stroke_loop (suc fuel) bars min_bars [] out = some out
stroke_loop (suc fuel) bars min_bars (first ∷ rest) out =
    let skip = stroke_loop fuel bars min_bars rest out in
    elim (select_stroke_end first rest) [
      | none ↦ skip
      | some end ↦
          if too_short first end min_bars then skip else elim (make_stroke bars first end) [
            | none ↦ none
            | some s ↦ stroke_loop fuel bars min_bars (seek end rest) (s ∷ out)
          ]
    ]

unfoldable pub build_strokes : List Fractal → List Bar → ℕ → Option (List Stroke)
unfolding stroke_loop
build_strokes fs bars min_bars = elim (stroke_loop (suc (length fs)) bars min_bars fs []) [
  | none ↦ none
  | some out ↦ some (reverse out)
]
