-- ===== src/Chanlun/Merging/Chronology.antt =====
-- Merging keeps the bars in the order of time.
use job_time_stock_watcher.Base.{
  ℕ, ◌<◌, ◌≤◌, List, [], ◌∷◌, arith, Bool-cases, inl, inr, Adjacent, Adjacent-reverse,
}
use job_time_stock_watcher.Chanlun.{Bar}
use job_time_stock_watcher.Chanlun.Merging.{
  Way, flat, included, counted, merge_into, inclusion_direction, merge_step, merge_loop,
  merge_inclusions,
}

abbrev pub Later : Bar → Bar → Type 0
Later a b = a.time < b.time

-- The newest bar is from before `t`, or at most from `t`.
abbrev Before : List Bar → ℕ → Type 0
Before [] t = Unit
Before (b ∷ _) t = b.time < t

abbrev Until : List Bar → ℕ → Type 0
Until [] t = Unit
Until (b ∷ _) t = b.time ≤ t

merge_into_times :
    (way : Way) (last bar : Bar)
    → last.time < bar.time
    → (last.time ≤ (merge_into way last bar).time) × ((merge_into way last bar).time ≤ bar.time)
unfolding merge_into
merge_into_times way last bar h = ground arith

merge_step_ordered :
    (way : Way) (out : List Bar) (bar : Bar)
    → Adjacent (λ b a. Later a b) out
    → Before out bar.time
    → Adjacent (λ b a. Later a b) (merge_step way out bar).1
      × Until (merge_step way out bar).1 bar.time
unfolding merge_step
merge_step_ordered way [] bar h k = (tt, omega arith)
merge_step_ordered way (last ∷ []) bar h k = ((k, tt), omega arith)
merge_step_ordered way (last ∷ previous ∷ out) bar h k =
    let way' = inclusion_direction previous last way in
    let times = merge_into_times way' last bar k in
    elim (Bool-cases (included last bar)) [
      | inl e ↦ rw e ((omega (arith, times, h.0), h.1), times.1)
      | inr e ↦ rw e ((k, h), omega arith)
    ]

Before-of_Until : (out : List Bar) (s t : ℕ) → Until out s → s < t → Before out t
Before-of_Until [] s t h k = tt
Before-of_Until (b ∷ out) s t h k = omega arith

-- The newest bar is from before the first of those to come.
abbrev Precedes : List Bar → List Bar → Type 0
Precedes out [] = Unit
Precedes out (b ∷ _) = Before out b.time

merge_loop_ordered :
    (way : Way) (out bars : List Bar)
    → Adjacent (λ b a. Later a b) out
    → Adjacent Later bars
    → Precedes out bars
    → Adjacent (λ b a. Later a b) (merge_loop way out bars)
unfolding merge_loop
merge_loop_ordered way out [] h k l = h
merge_loop_ordered way out (bar ∷ []) h k l = (merge_step_ordered way out (counted bar) h l).0
merge_loop_ordered way out (bar ∷ next ∷ bars) h k l =
    let (way', out') = merge_step way out (counted bar) in
    let (sorted, last) = merge_step_ordered way out (counted bar) h l in
    merge_loop_ordered way' out' (next ∷ bars) sorted k.1
      (Before-of_Until out' bar.time next.time last k.0)

-- Bars in strictly ascending order of time are merged into bars in strictly ascending order of time.
pub merge_inclusions_ordered :
    (bars : List Bar) → Adjacent Later bars → Adjacent Later (merge_inclusions bars)
unfolding merge_inclusions
merge_inclusions_ordered bars h =
    Adjacent-reverse Later (merge_loop flat [] bars)
      (merge_loop_ordered flat [] bars tt h (start bars))
  where
    start : (bs : List Bar) → Precedes [] bs
    start [] = tt
    start (_ ∷ _) = tt
