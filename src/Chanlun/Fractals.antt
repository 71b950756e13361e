-- ===== src/Chanlun/Fractals.antt =====
-- internal/chanlun/chanlun.go: `detectFractals` and `appendFractal`. The slice `out` is kept with
-- its last fractal first.
pub mod Genuine
pub mod Alternation
use mathlib.Core.List.{reverse}
use job_time_stock_watcher.Base.{
  ℕ, ◌+◌, ◌-◌, Bool, true, false, ◌&&◌, ◌||◌, List, [], ◌∷◌, Option, none, some, ltb, if◌then◌else◌,
}
use job_time_stock_watcher.Chanlun.{Mark, top, bottom, Bar, Fractal}

abbrev pub same_mark : Mark → Mark → Bool
same_mark top top = true
same_mark bottom bottom = true
same_mark _ _ = false

abbrev pub is_top : Bar → Bar → Bar → Bool
is_top left middle right =
    ltb left.high middle.high
    && ltb right.high middle.high
    && ltb left.low middle.low
    && ltb right.low middle.low

abbrev pub is_bottom : Bar → Bar → Bar → Bool
is_bottom left middle right =
    ltb middle.low left.low
    && ltb middle.low right.low
    && ltb middle.high left.high
    && ltb middle.high right.high

abbrev pub fractal_of : Mark → ℕ → Bar → ℕ → Fractal
fractal_of mark price middle i = record {
  mark = mark;
  time = middle.time;
  high = middle.high;
  low = middle.low;
  price = price;
  index = i;
  start = i - 1;
  end = i + 1;
}

-- The fractal at `middle`, the bar of index `i`.
unfoldable pub fractal_at : ℕ → Bar → Bar → Bar → Option Fractal
fractal_at i left middle right =
    if is_top left middle right
    then some (fractal_of top middle.high middle i)
    else if is_bottom left middle right
    then some (fractal_of bottom middle.low middle i)
    else none

abbrev pub more_extreme : Fractal → Fractal → Bool
more_extreme last fractal = elim (fractal.mark) [
  | top ↦ ltb last.high fractal.high
  | bottom ↦ ltb fractal.low last.low
]

unfoldable pub append_fractal : List Fractal → Fractal → List Fractal
append_fractal [] fractal = fractal ∷ []
append_fractal (last ∷ out) fractal =
    if same_mark last.mark fractal.mark
    then if more_extreme last fractal then fractal ∷ out else last ∷ out
    else fractal ∷ last ∷ out

unfoldable pub detect_loop : ℕ → List Fractal → List Bar → List Fractal
unfolding fractal_at append_fractal
detect_loop i out (left ∷ middle ∷ right ∷ bars) =
    detect_loop (i + 1)
      (elim (fractal_at i left middle right) [ none ↦ out | some f ↦ append_fractal out f ])
      (middle ∷ right ∷ bars)
detect_loop i out _ = out

unfoldable pub detect_fractals : List Bar → List Fractal
unfolding detect_loop
detect_fractals bars = reverse (detect_loop 1 [] bars)
