-- ===== src/Chanlun/Merging/Conservation.antt =====
-- What merging keeps: the count of source bars and the volume.
use mathlib.Core.List.{reverse, reverse-cons}
use job_time_stock_watcher.Base.{ℕ, ◌+◌, List, [], ◌∷◌, ◌++◌, ◌≡◌, refl, ◌∙◌, ap, arith}
use job_time_stock_watcher.Chanlun.{Bar}
use job_time_stock_watcher.Chanlun.Merging.{
  Way, flat, counted, merge_into, merge_step, merge_loop, merge_inclusions,
}

abbrev pub total : (Bar → ℕ) → List Bar → ℕ
total f [] = 0
total f (b ∷ bs) = f b + total f bs

total-append : (f : Bar → ℕ) (xs ys : List Bar) → total f (xs ++ ys) ≡ total f xs + total f ys
total-append f [] ys = omega arith
total-append f (x ∷ xs) ys = omega (arith, total-append f xs ys)

total-reverse : (f : Bar → ℕ) (xs : List Bar) → total f (reverse xs) ≡ total f xs
total-reverse f [] = refl
total-reverse f (x ∷ xs) =
    ap (total f) (reverse-cons x xs)
    ∙ omega (arith, total-append f (reverse xs) (x ∷ []), total-reverse f xs)

-- The source bars that a bar stands for.
abbrev pub sources : Bar → ℕ
sources b = (counted b).raw_bars

merge_step_conserves :
    (way : Way) (out : List Bar) (bar : Bar)
    → (total (λ b. b.raw_bars) (merge_step way out bar).1
        ≡ total (λ b. b.raw_bars) out + bar.raw_bars)
      × (total (λ b. b.volume) (merge_step way out bar).1 ≡ total (λ b. b.volume) out + bar.volume)
unfolding merge_step merge_into
merge_step_conserves way [] bar = omega arith
merge_step_conserves way (last ∷ []) bar = omega arith
merge_step_conserves way (last ∷ previous ∷ out) bar = ground arith

merge_loop_conserves :
    (way : Way) (out bars : List Bar)
    → (total (λ b. b.raw_bars) (merge_loop way out bars)
        ≡ total (λ b. b.raw_bars) out + total sources bars)
      × (total (λ b. b.volume) (merge_loop way out bars)
          ≡ total (λ b. b.volume) out + total (λ b. b.volume) bars)
unfolding merge_loop
merge_loop_conserves way out [] = omega arith
merge_loop_conserves way out (bar ∷ bars) =
    let (way', out') = merge_step way out (counted bar) in
    omega (arith, merge_step_conserves way out (counted bar), merge_loop_conserves way' out' bars)

-- The merged bars stand for as many source bars as went in, where a count of 0 stands for 1, and
-- have their whole volume.
pub merge_inclusions_conserves :
    (bars : List Bar)
    → (total (λ b. b.raw_bars) (merge_inclusions bars) ≡ total sources bars)
      × (total (λ b. b.volume) (merge_inclusions bars) ≡ total (λ b. b.volume) bars)
unfolding merge_inclusions
merge_inclusions_conserves bars = omega (
  arith,
  merge_loop_conserves flat [] bars,
  total-reverse (λ b. b.raw_bars) (merge_loop flat [] bars),
  total-reverse (λ b. b.volume) (merge_loop flat [] bars),
)
