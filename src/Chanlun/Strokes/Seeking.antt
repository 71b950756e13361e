-- ===== src/Chanlun/Strokes/Seeking.antt =====
-- What the search for the end of a stroke leaves.
use job_time_stock_watcher.Base.{
  ℕ, ◌<◌, ◌≤◌, true, List, [], ◌∷◌, ◌≡◌, arith, Bool-cases, inl, inr, All, Adjacent, length,
}
use job_time_stock_watcher.Chanlun.{Bar, Fractal}
use job_time_stock_watcher.Chanlun.Fractals.Genuine.{IsFractal}
use job_time_stock_watcher.Chanlun.Fractals.Alternation.{Follows}
use job_time_stock_watcher.Chanlun.Strokes.{seek, fractal_eq}

-- Indices ascend.
abbrev pub After : ℕ → List Fractal → Type 0
After i fs = All (λ f. i < f.index) fs

abbrev pub Ascending : List Fractal → Type 0
Ascending [] = Unit
Ascending (f ∷ fs) = After f.index fs × Ascending fs

After-later : (i j : ℕ) (fs : List Fractal) → i ≤ j → After j fs → After i fs
After-later i j [] h k = tt
After-later i j (f ∷ fs) h k = (omega (arith, k.0, h), After-later i j fs h k.1)

pub Ascending-of_Follows : (fs : List Fractal) → Adjacent Follows fs → Ascending fs
Ascending-of_Follows [] h = tt
Ascending-of_Follows (f ∷ []) h = (tt, tt)
Ascending-of_Follows (f ∷ g ∷ fs) h =
    let (k, l) = Ascending-of_Follows (g ∷ fs) h.1 in
    ((h.0.1, After-later f.index g.index fs (omega (arith, h.0)) k), (k, l))

-- The search drops only leading fractals, and starts no earlier than at the end it looks for.
pub record Sought (bars : List Bar) (end : Fractal) (fs found : List Fractal) : Type 0 where
  pub shorter : length found ≤ length fs
  pub genuine : All (IsFractal bars) found
  pub ascending : Ascending found
  pub reached : All (λ f. end.index ≤ f.index) found

After-reached : (i j : ℕ) (fs : List Fractal) → i ≡ j → After i fs → All (λ f. j ≤ f.index) fs
After-reached i j [] h k = tt
After-reached i j (f ∷ fs) h k = (omega (arith, k.0, h), After-reached i j fs h k.1)

fractal_eq_index : (f g : Fractal) → fractal_eq f g ≡ true → f.index ≡ g.index
fractal_eq_index f g h = ground (arith, h)

pub seek-Sought :
    (bars : List Bar) (end : Fractal) (fs : List Fractal)
    → All (IsFractal bars) fs
    → Ascending fs
    → Sought bars end fs (seek end fs)
unfolding seek
seek-Sought bars end [] h k = record {
  shorter = omega arith;
  genuine = tt;
  ascending = tt;
  reached = tt;
}
seek-Sought bars end (f ∷ fs) h k = elim (Bool-cases (fractal_eq f end)) [
  | inl e ↦ rw e (record {
    shorter = omega arith;
    genuine = h;
    ascending = k;
    reached = (
      omega (arith, fractal_eq_index f end e),
      After-reached f.index end.index fs (fractal_eq_index f end e) k.0,
    );
  })
  | inr e ↦
      let r = seek-Sought bars end fs h.1 k.1 in
      rw e (record {
        shorter = omega (arith, r.shorter);
        genuine = r.genuine;
        ascending = r.ascending;
        reached = r.reached;
      })
]
