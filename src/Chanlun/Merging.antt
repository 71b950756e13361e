-- ===== src/Chanlun/Merging.antt =====
-- internal/chanlun/chanlun.go: `mergeInclusions`. The slice `out` is kept with its last bar first.
pub mod Separation
pub mod Conservation
pub mod Chronology
use mathlib.Core.List.{reverse}
use job_time_stock_watcher.Base.{
  ℕ, ◌+◌, Bool, true, false, ◌&&◌, ◌||◌, List, [], ◌∷◌, ltb, leb, ◌==◌, if◌then◌else◌, min, max,
}
use job_time_stock_watcher.Chanlun.{Bar}

-- The direction of the last merge: 0, 1 and -1.
pub data Way : Type 0 where
  flat rising falling : Way

unfoldable pub inclusion_direction : Bar → Bar → Way → Way
inclusion_direction previous last fallback =
    if ltb previous.high last.high
    then rising
    else if ltb last.high previous.high
    then falling
    else if ltb previous.low last.low
    then rising
    else if ltb last.low previous.low
    then falling
    else elim fallback [ flat ↦ rising | rising ↦ rising | falling ↦ falling ]

abbrev pub counted : Bar → Bar
counted b = record b { raw_bars = if b.raw_bars == 0 then 1 else b.raw_bars }

-- One bar contains the other.
abbrev pub included : Bar → Bar → Bool
included last bar =
    (leb last.high bar.high && leb bar.low last.low)
    || (leb bar.high last.high && leb last.low bar.low)

unfoldable pub merge_into : Way → Bar → Bar → Bar
merge_into way last bar =
    let merged = record last {
      raw_bars = last.raw_bars + bar.raw_bars;
      volume = last.volume + bar.volume;
      close = bar.close;
    } in
    elim way [
      | rising ↦ record merged {
        high = max last.high bar.high;
        low = max last.low bar.low;
        time = if ltb last.high bar.high then bar.time else last.time;
      }
      | _ ↦ record merged {
        high = min last.high bar.high;
        low = min last.low bar.low;
        time = if ltb bar.low last.low then bar.time else last.time;
      }
    ]

-- One round: the direction that it leaves, and the bars so far.
unfoldable pub merge_step : Way → List Bar → Bar → Way × List Bar
unfolding inclusion_direction merge_into
merge_step way [] bar = (way, bar ∷ [])
merge_step way (last ∷ []) bar = (way, bar ∷ last ∷ [])
merge_step way (last ∷ previous ∷ out) bar =
    let direction = inclusion_direction previous last way in
    (
      direction,
      if included last bar
          then merge_into direction last bar ∷ previous ∷ out
          else bar ∷ last ∷ previous ∷ out,
    )

unfoldable pub merge_loop : Way → List Bar → List Bar → List Bar
unfolding merge_step
merge_loop way out [] = out
merge_loop way out (bar ∷ bars) =
    let (way', out') = merge_step way out (counted bar) in merge_loop way' out' bars

unfoldable pub merge_inclusions : List Bar → List Bar
unfolding merge_loop
merge_inclusions bars = reverse (merge_loop flat [] bars)
