-- ===== src/Chanlun/Zones.antt =====
-- internal/chanlun/chanlun.go: `buildZones`, `newZone`, `zoneOverlaps` and `zoneValid`. `newZone` is
-- only called on a group that is not empty, so its infinite starting values never show.
pub mod Standing
use mathlib.Core.List.{reverse}
use job_time_stock_watcher.Base.{
  ℕ, suc, ◌+◌, Bool, true, false, not, ◌&&◌, List, [], ◌∷◌, ◌++◌, leb, if◌then◌else◌, min, max,
  length,
}
use job_time_stock_watcher.Chanlun.{Fractal, Stroke, Zone}

abbrev pub highest : ℕ → List Stroke → ℕ
highest hi [] = hi
highest hi (s ∷ ss) = highest (max hi s.high) ss

abbrev pub lowest : ℕ → List Stroke → ℕ
lowest lo [] = lo
lowest lo (s ∷ ss) = lowest (min lo s.low) ss

-- The strokes of the first three places bound the zone.
abbrev pub upper_of : Stroke → List Stroke → ℕ
upper_of a [] = a.high
upper_of a (b ∷ []) = min a.high b.high
upper_of a (b ∷ c ∷ _) = min (min a.high b.high) c.high

abbrev pub lower_of : Stroke → List Stroke → ℕ
lower_of a [] = a.low
lower_of a (b ∷ []) = max a.low b.low
lower_of a (b ∷ c ∷ _) = max (max a.low b.low) c.low

abbrev pub last_time : ℕ → List Stroke → ℕ
last_time t [] = t
last_time t (s ∷ ss) = last_time s.end.time ss

unfoldable pub new_zone : Stroke → List Stroke → Zone
new_zone s ss = record {
  from = s.start.time;
  to = last_time s.end.time ss;
  upper = upper_of s ss;
  lower = lower_of s ss;
  twice_mid = lower_of s ss + upper_of s ss;
  high = highest s.high ss;
  low = lowest s.low ss;
  strokes = suc (length ss);
}

abbrev pub zone_valid : Zone → Bool
zone_valid z = leb z.lower z.upper

abbrev pub zone_overlaps : Stroke → Zone → Bool
zone_overlaps s z = leb z.lower s.high && leb s.low z.upper

-- The inner loop: strokes leave at the front until the rest is a zone, or one is left.
unfoldable pub shrink : List Stroke → List Stroke
unfolding new_zone
shrink [] = []
shrink (a ∷ []) = a ∷ []
shrink (a ∷ b ∷ ss) =
    let rest = shrink (b ∷ ss) in if zone_valid (new_zone a (b ∷ ss)) then a ∷ b ∷ ss else rest

-- One round; `out` is kept with its last zone first.
unfoldable pub zone_step : List Zone → List Stroke → Stroke → List Zone × List Stroke
unfolding shrink
zone_step out (a ∷ b ∷ c ∷ ss) stroke =
    let zone = new_zone a (b ∷ c ∷ ss) in
    if zone_valid zone && not (zone_overlaps stroke zone)
    then (zone ∷ out, stroke ∷ [])
    else (out, shrink ((a ∷ b ∷ c ∷ ss) ++ (stroke ∷ [])))
zone_step out group stroke = (out, shrink (group ++ (stroke ∷ [])))

unfoldable pub close_zone : List Zone → List Stroke → List Zone
unfolding new_zone
close_zone out (a ∷ b ∷ c ∷ ss) =
    let zone = new_zone a (b ∷ c ∷ ss) in if zone_valid zone then zone ∷ out else out
close_zone out _ = out

unfoldable pub zone_loop : List Zone → List Stroke → List Stroke → List Zone
unfolding zone_step close_zone
zone_loop out group [] = close_zone out group
zone_loop out group (s ∷ ss) =
    let (out', group') = zone_step out group s in zone_loop out' group' ss

unfoldable pub build_zones : List Stroke → List Zone
unfolding zone_loop
build_zones strokes = reverse (zone_loop [] [] strokes)
