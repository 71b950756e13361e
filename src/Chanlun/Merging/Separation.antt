-- ===== src/Chanlun/Merging/Separation.antt =====
-- The merged bars: none contains its neighbour, but perhaps the first two.
use job_time_stock_watcher.Base.{
  true, false, List, [], ◌∷◌, ◌≡◌, arith, Bool-cases, inl, inr, AdjacentInit, AdjacentTail,
  AdjacentTail-reverse,
}
use job_time_stock_watcher.Chanlun.{Bar}
use job_time_stock_watcher.Chanlun.Merging.{
  Way, flat, included, counted, inclusion_direction, merge_into, merge_step, merge_loop,
  merge_inclusions,
}

abbrev pub Apart : Bar → Bar → Type 0
Apart a b = included a b ≡ false

-- A merge moves the last bar further away from the one before it.
merge_into-Apart :
    (way : Way) (previous last bar : Bar)
    → Apart previous last
    → included last bar ≡ true
    → Apart previous (merge_into (inclusion_direction previous last way) last bar)
unfolding inclusion_direction merge_into
merge_into-Apart way previous last bar h k = ground arith

merge_step-Separate :
    (way : Way) (out : List Bar) (bar : Bar)
    → AdjacentInit (λ b a. Apart a b) out
    → AdjacentInit (λ b a. Apart a b) (merge_step way out bar).1
unfolding merge_step
merge_step-Separate way [] bar h = tt
merge_step-Separate way (last ∷ []) bar h = tt
merge_step-Separate way (last ∷ previous ∷ []) bar h = elim (Bool-cases (included last bar)) [
  | inl e ↦ rw e tt
  | inr e ↦ rw e (e, tt)
]
merge_step-Separate way (last ∷ previous ∷ older ∷ out) bar h =
    elim (Bool-cases (included last bar)) [
      | inl e ↦ rw e (merge_into-Apart way previous last bar h.0 e, h.1)
      | inr e ↦ rw e (e, h)
    ]

merge_loop-Separate :
    (way : Way) (out bars : List Bar)
    → AdjacentInit (λ b a. Apart a b) out
    → AdjacentInit (λ b a. Apart a b) (merge_loop way out bars)
unfolding merge_loop
merge_loop-Separate way out [] h = h
merge_loop-Separate way out (bar ∷ bars) h =
    let (way', out') = merge_step way out (counted bar) in
    merge_loop-Separate way' out' bars (merge_step-Separate way out (counted bar) h)

-- After merging, no bar from the second on contains the bar that follows it, or is contained in it.
pub merge_inclusions_separates : (bars : List Bar) → AdjacentTail Apart (merge_inclusions bars)
unfolding merge_inclusions
merge_inclusions_separates bars =
    AdjacentTail-reverse Apart (merge_loop flat [] bars) (merge_loop-Separate flat [] bars tt)
