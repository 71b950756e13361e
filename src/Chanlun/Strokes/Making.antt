-- ===== src/Chanlun/Strokes/Making.antt =====
-- The stroke between two fractals of the bars.
use job_time_stock_watcher.Base.{
  ℕ, zero, suc, ◌+◌, ◌-◌, ◌<◌, ◌≤◌, true, false, List, [], ◌∷◌, Option, none, some, ◌≡◌, refl,
  subst, arith, Option-cases, inl, inr, get_elem?, length, ◌⊎◌,
}
use job_time_stock_watcher.Chanlun.{top, bottom, up, down, Bar, Fractal, Stroke}
use job_time_stock_watcher.Chanlun.Fractals.Genuine.{IsFractal}
use job_time_stock_watcher.Chanlun.Strokes.{
  extremes, make_stroke, stroke_of, too_short, fractal_contains,
}
use job_time_stock_watcher.Chanlun.Strokes.Wellformed.{Ends, Spans, Extreme, extremes_lem}

-- A stroke between two fractals that can be its ends, of at least `min_bars` bars, all of which are
-- within its range.
pub record IsStroke (bars : List Bar) (min_bars : ℕ) (s : Stroke) : Type 0 where
  pub start_genuine : IsFractal bars s.start
  pub end_genuine : IsFractal bars s.end
  pub ends : Ends s.start s.end
  pub directed :
      ((s.start.mark ≡ bottom) × (s.direction ≡ up)) ⊎ ((s.start.mark ≡ top) × (s.direction ≡ down))
  pub counted : s.merged_bars + s.start.start ≡ s.end.end + 1
  pub long : min_bars ≤ s.merged_bars
  pub apart : fractal_contains s.start s.end ≡ false
  pub spans : Spans bars s.start.start s.merged_bars s.low s.high

get_elem?-below : (bars : List Bar) (i : ℕ) (b : Bar) → get_elem? bars i ≡ some b → i < length bars
get_elem?-below [] i b h = ground (arith, h)
get_elem?-below (x ∷ bars) zero b h = omega arith
get_elem?-below (x ∷ bars) (suc i) b h = let k = get_elem?-below bars i b h in omega (arith, k)

-- The stroke, as a value that the code computes.
abbrev pub Makes : List Bar → ℕ → Fractal → Fractal → Option Stroke → Type 0
Makes bars min_bars first end none = false ≡ true
Makes bars min_bars first end (some s) =
    IsStroke bars min_bars s × (s.start ≡ first) × (s.end ≡ end)

module _ (bars : List Bar) (min_bars : ℕ) (first end : Fractal) (f : IsFractal bars first)
    (g : IsFractal bars end) (e : Ends first end) (t : too_short first end min_bars ≡ false) where
  stroke_of-IsStroke :
      (b : Bar) (hi lo : ℕ)
      → get_elem? bars first.start ≡ some b
      → Extreme bars (first.start + 1) (end.end - first.start) b.high b.low (some (hi, lo))
      → IsStroke bars min_bars (stroke_of first end hi lo)
  stroke_of-IsStroke b hi lo at x =
      let (high, low, spans) = x in
      let one : suc (end.end - first.start) ≡ end.end + 1 - first.start =
        omega (arith, f.placed, f.ended, g.placed, g.ended, e.0) in
      record {
        start_genuine = f;
        end_genuine = g;
        ends = e;
        directed = ground (arith, e);
        counted = omega (arith, f.placed, g.ended, e.0);
        long = ground (arith, t);
        apart = ground (arith, t);
        spans = subst (λ n. Spans bars first.start n lo hi) one (rw at (low, high), spans);
      }

  pub make_stroke-Makes : Makes bars min_bars first end (make_stroke bars first end)
  unfolding make_stroke
  make_stroke-Makes =
      let b = f.left in
      let inside = get_elem?-below bars end.end g.right g.right_at in
      let Extreme_of = Extreme bars (first.start + 1) (end.end - first.start) b.high b.low in
      let x =
        extremes_lem bars (first.start + 1) (end.end - first.start) b.high b.low
          (omega (arith, f.placed, g.placed, g.ended, e.0)) in
      elim (Option-cases (extremes bars (first.start + 1) (end.end - first.start) b.high b.low)) [
        | inl n ↦
            (let impossible : false ≡ true = subst Extreme_of n x in
              absurd (ground (arith, impossible)))
        | inr (r, n) ↦
            rw (f.left_at, n, make_stroke)
              (stroke_of-IsStroke b r.0 r.1 f.left_at (subst Extreme_of n x), refl, refl)
      ]
