-- ===== src/Chanlun/Fractals/Genuine.antt =====
-- Every fractal is a strict extreme of three neighbouring bars.
use native.Mathlib.Numerals.{add-one}
use job_time_stock_watcher.Base.{
  ℕ, ◌+◌, ◌<◌, List, [], ◌∷◌, Option, none, some, ◌≡◌, refl, ◌⊎◌, arith, Bool-cases, inl, inr, All,
  All-reverse, get_elem?,
}
use job_time_stock_watcher.Chanlun.{top, bottom, Bar, Fractal}
use job_time_stock_watcher.Chanlun.Fractals.{
  fractal_at, append_fractal, detect_loop, detect_fractals, same_mark, more_extreme,
}

-- `f` stands at the middle of three neighbouring bars: above both in high and low if it is a top,
-- below both if it is a bottom.
pub record IsFractal (bars : List Bar) (f : Fractal) : Type 0 where
  pub left : Bar
  pub middle : Bar
  pub right : Bar
  pub placed : f.index ≡ f.start + 1
  pub ended : f.end ≡ f.index + 1
  pub left_at : get_elem? bars f.start ≡ some left
  pub middle_at : get_elem? bars f.index ≡ some middle
  pub right_at : get_elem? bars f.end ≡ some right
  pub timed : f.time ≡ middle.time
  pub spanned : (f.high ≡ middle.high) × (f.low ≡ middle.low)
  pub extreme :
      ((f.mark ≡ top)
        × (f.price ≡ middle.high)
        × (left.high < middle.high)
        × (right.high < middle.high)
        × (left.low < middle.low)
        × (right.low < middle.low))
      ⊎ ((f.mark ≡ bottom)
          × (f.price ≡ middle.low)
          × (middle.low < left.low)
          × (middle.low < right.low)
          × (middle.high < left.high)
          × (middle.high < right.high))

-- The bars from index `i` on.
abbrev Rest : List Bar → ℕ → List Bar → Type 0
Rest bars i [] = Unit
Rest bars i (b ∷ bs) = (get_elem? bars i ≡ some b) × Rest bars (i + 1) bs

fractal_at-IsFractal :
    (bars : List Bar) (i : ℕ) (left middle right : Bar) (f : Fractal)
    → get_elem? bars i ≡ some left
    → get_elem? bars (i + 1) ≡ some middle
    → get_elem? bars (i + 1 + 1) ≡ some right
    → fractal_at (i + 1) left middle right ≡ some f
    → IsFractal bars f
unfolding fractal_at
fractal_at-IsFractal bars i left middle right f l m r h = record {
  left = left;
  middle = middle;
  right = right;
  placed = ground (arith, h);
  ended = ground (arith, h);
  left_at = ground (arith, h, l);
  middle_at = ground (arith, h, m);
  right_at = ground (arith, h, r);
  timed = ground (arith, h);
  spanned = ground (arith, h);
  extreme = ground (arith, h);
}

append_fractal-All {κ} :
    (P : Fractal → Type κ) (out : List Fractal) (f : Fractal)
    → All P out
    → P f
    → All P (append_fractal out f)
unfolding append_fractal
append_fractal-All P [] f h k = (k, tt)
append_fractal-All P (last ∷ out) f h k = elim (Bool-cases (same_mark last.mark f.mark)) [
  | inl e ↦ elim (Bool-cases (more_extreme last f)) [
    | inl m ↦ rw e (rw m (k, h.1))
    | inr m ↦ rw e (rw m h)
  ]
  | inr e ↦ rw e (k, h)
]

append_found {κ} :
    (P : Fractal → Type κ) (out : List Fractal) (found : Option Fractal)
    → All P out
    → ((f : Fractal) → found ≡ some f → P f)
    → All P (elim found [ none ↦ out | some f ↦ append_fractal out f ])
append_found P out none h k = h
append_found P out (some f) h k = append_fractal-All P out f h (k f refl)

detect_loop-IsFractal :
    (bars : List Bar) (i : ℕ) (out : List Fractal) (bs : List Bar)
    → Rest bars i bs
    → All (IsFractal bars) out
    → All (IsFractal bars) (detect_loop (i + 1) out bs)
unfolding detect_loop
detect_loop-IsFractal bars i out (left ∷ middle ∷ right ∷ bs) r h =
    let (l, (m, (n, _))) = r in
    let found = fractal_at (i + 1) left middle right in
    detect_loop-IsFractal bars (i + 1) (elim found [ none ↦ out | some f ↦ append_fractal out f ])
      (middle ∷ right ∷ bs) r.1
      (append_found (IsFractal bars) out found h
        λ f e. fractal_at-IsFractal bars i left middle right f l m n e)
detect_loop-IsFractal bars i out _ r h = h

Rest-cons :
    (x : Bar) (bars : List Bar) (i : ℕ) (bs : List Bar)
    → Rest bars i bs
    → Rest (x ∷ bars) (i + 1) bs
Rest-cons x bars i [] h = tt
Rest-cons x bars i (b ∷ bs) h = (rw add-one h.0, Rest-cons x bars (i + 1) bs h.1)

Rest-self : (bars : List Bar) → Rest bars 0 bars
Rest-self [] = tt
Rest-self (b ∷ bs) = (refl, Rest-cons b bs 0 bs (Rest-self bs))

-- Every fractal that `detectFractals` reports is a strict extreme of three neighbouring bars, with
-- the indices and the prices of those bars.
pub detect_fractals-IsFractal : (bars : List Bar) → All (IsFractal bars) (detect_fractals bars)
unfolding detect_fractals
detect_fractals-IsFractal bars =
    All-reverse (IsFractal bars) (detect_loop 1 [] bars)
      (detect_loop-IsFractal bars 0 [] bars (Rest-self bars) tt)
