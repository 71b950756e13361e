-- ===== src/Chanlun/Strokes/Complete.antt =====
-- The strokes of the fractals of a list of bars: there always are some, and how they lie.
use mathlib.Core.List.{reverse}
use job_time_stock_watcher.Base.{
  ℕ, zero, suc, ◌<◌, ◌≤◌, true, false, List, [], ◌∷◌, Option, none, some, ◌≡◌, refl, sym, subst,
  arith, Bool-cases, Option-cases, inl, inr, All, All-reverse, Adjacent, Adjacent-reverse, length,
}
use job_time_stock_watcher.Chanlun.{Bar, Fractal, Stroke}
use job_time_stock_watcher.Chanlun.Fractals.{detect_fractals}
use job_time_stock_watcher.Chanlun.Fractals.Genuine.{IsFractal, detect_fractals-IsFractal}
use job_time_stock_watcher.Chanlun.Fractals.Alternation.{detect_fractals_alternates}
use job_time_stock_watcher.Chanlun.Strokes.{
  select_stroke_end, make_stroke, seek, too_short, stroke_loop, build_strokes,
}
use job_time_stock_watcher.Chanlun.Strokes.Wellformed.{Chosen, select_stroke_end-Chosen}
use job_time_stock_watcher.Chanlun.Strokes.Making.{IsStroke, Makes, make_stroke-Makes}
use job_time_stock_watcher.Chanlun.Strokes.Seeking.{Ascending, Ascending-of_Follows, seek-Sought}

-- `t` starts no earlier than `s` ends.
abbrev pub Chained : Stroke → Stroke → Type 0
Chained s t = s.end.index ≤ t.start.index

-- The strokes so far end no later than the fractals that are left begin.
abbrev Reached : List Stroke → List Fractal → Type 0
Reached [] fs = Unit
Reached (s ∷ _) fs = All (λ f. s.end.index ≤ f.index) fs

Reached-skip :
    (out : List Stroke) (f : Fractal) (fs : List Fractal) → Reached out (f ∷ fs) → Reached out fs
Reached-skip [] f fs h = tt
Reached-skip (s ∷ _) f fs h = h.1

Reached-push :
    (s : Stroke) (out : List Stroke) (fs : List Fractal)
    → Reached out (s.start ∷ fs)
    → Adjacent (λ t s. Chained s t) out
    → Adjacent (λ t s. Chained s t) (s ∷ out)
Reached-push s [] fs h k = tt
Reached-push s (t ∷ out) fs h k = (h.0, k)

-- Strokes were built, newest first.
abbrev Built : List Bar → ℕ → Option (List Stroke) → Type 0
Built bars min_bars none = false ≡ true
Built bars min_bars (some out) =
    All (IsStroke bars min_bars) out × Adjacent (λ t s. Chained s t) out

stroke_loop-Built :
    (fuel : ℕ) (bars : List Bar) (min_bars : ℕ) (fs : List Fractal) (out : List Stroke)
    → length fs < fuel
    → All (IsFractal bars) fs
    → Ascending fs
    → All (IsStroke bars min_bars) out
    → Adjacent (λ t s. Chained s t) out
    → Reached out fs
    → Built bars min_bars (stroke_loop fuel bars min_bars fs out)
unfolding stroke_loop
stroke_loop-Built zero bars min_bars fs out h f a o c r = absurd (omega arith)
stroke_loop-Built (suc fuel) bars min_bars [] out h f a o c r = (o, c)
stroke_loop-Built (suc fuel) bars min_bars (first ∷ rest) out h f a o c r =
    let skip =
      stroke_loop-Built fuel bars min_bars rest out (omega arith) f.1 a.1 o c
        (Reached-skip out first rest r) in
    let chosen = select_stroke_end-Chosen (IsFractal bars) first rest f.1 in
    elim (Option-cases (select_stroke_end first rest)) [
      | inl n ↦ rw (n, stroke_loop) skip
      | inr (end, n) ↦
          let (e, g) = subst (Chosen (IsFractal bars) first) n chosen in
          elim (Bool-cases (too_short first end min_bars)) [
            | inl t ↦ rw (n, stroke_loop) (rw t skip)
            | inr t ↦
                let makes = make_stroke-Makes bars min_bars first end f.0 g e t in
                elim (Option-cases (make_stroke bars first end)) [
                  | inl m ↦
                      (let impossible : false ≡ true =
                          subst (Makes bars min_bars first end) m makes in
                        absurd (ground (arith, impossible)))
                  | inr (s, m) ↦
                      let (stroke, starts, ends) = subst (Makes bars min_bars first end) m makes in
                      let sought = seek-Sought bars end rest f.1 a.1 in
                      rw (n, stroke_loop)
                        (rw t (
                          rw m (
                            stroke_loop-Built fuel bars min_bars (seek end rest) (s ∷ out)
                              (omega (arith, sought.shorter)) sought.genuine sought.ascending
                              (stroke, o)
                              (Reached-push s out rest
                                (subst (λ x. Reached out (x ∷ rest)) (sym starts) r) c)
                              (subst (λ x. All (λ f. x.index ≤ f.index) (seek end rest)) (sym ends)
                                sought.reached))))
                ]
          ]
    ]

-- `buildStrokes` makes strokes out of the fractals that `detectFractals` finds in the bars, without
-- an index out of range. Each goes from a fractal to a later one of the other mark that lies on the
-- right side of its price, contains at least the minimum of bars, and all its bars are within its
-- range. Each starts no earlier than the one before it ends.
pub build_strokes_built :
    (bars : List Bar) (min_bars : ℕ)
    → (strokes : List Stroke) × (build_strokes (detect_fractals bars) bars min_bars ≡ some strokes)
      × All (IsStroke bars min_bars) strokes
      × Adjacent Chained strokes
unfolding build_strokes
build_strokes_built bars min_bars =
    let fs = detect_fractals bars in
    let built =
      stroke_loop-Built (suc (length fs)) bars min_bars fs [] (omega arith)
        (detect_fractals-IsFractal bars) (Ascending-of_Follows fs (detect_fractals_alternates bars))
        tt tt tt in
    elim (Option-cases (stroke_loop (suc (length fs)) bars min_bars fs [])) [
      | inl n ↦
          (let impossible : false ≡ true = subst (Built bars min_bars) n built in
            absurd (ground (arith, impossible)))
      | inr (out, n) ↦
          let (o, c) = subst (Built bars min_bars) n built in
          (
            reverse out,
            rw (n, build_strokes) refl,
            All-reverse (IsStroke bars min_bars) out o,
            Adjacent-reverse Chained out c,
          )
    ]
