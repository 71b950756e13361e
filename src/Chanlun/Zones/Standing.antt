-- ===== src/Chanlun/Zones/Standing.antt =====
-- What every zone is made of.
use mathlib.Core.List.{append_assoc}
use job_time_stock_watcher.Base.{
  ◌≤◌, true, List, [], ◌∷◌, ◌++◌, ◌≡◌, refl, sym, ap, ◌∙◌, subst, arith, Bool-cases, inl, inr, All,
  All-reverse, All-append,
}
use job_time_stock_watcher.Chanlun.{Stroke, Zone}
use job_time_stock_watcher.Chanlun.Zones.{
  new_zone, zone_valid, zone_overlaps, shrink, zone_step, close_zone, zone_loop, build_zones,
}

-- The zone is that of three or more strokes in a row, all of which reach into its range.
pub record IsZone (strokes : List Stroke) (z : Zone) : Type 0 where
  pub before : List Stroke
  pub first : Stroke
  pub second : Stroke
  pub third : Stroke
  pub more : List Stroke
  pub after : List Stroke
  pub found : before ++ ((first ∷ second ∷ third ∷ more) ++ after) ≡ strokes
  pub made : z ≡ new_zone first (second ∷ third ∷ more)
  pub valid : z.lower ≤ z.upper
  pub crossed : All (λ s. (z.lower ≤ s.high) × (s.low ≤ z.upper)) (first ∷ second ∷ third ∷ more)

abbrev Crossed : Zone → Stroke → Type 0
Crossed z s = (z.lower ≤ s.high) × (s.low ≤ z.upper)

-- A group of two or more strokes is a zone that they all reach into.
abbrev Holding : List Stroke → Type 0
Holding (a ∷ b ∷ ss) =
    (zone_valid (new_zone a (b ∷ ss)) ≡ true) × All (Crossed (new_zone a (b ∷ ss))) (a ∷ b ∷ ss)
Holding _ = Unit

shrink_two : (a b : Stroke) → Holding (shrink (a ∷ b ∷ []))
unfolding shrink new_zone
shrink_two a b = elim (Bool-cases (zone_valid (new_zone a (b ∷ [])))) [
  | inl e ↦ rw e (e, (ground (arith, e), (ground (arith, e), tt)))
  | inr e ↦ rw e tt
]

shrink_three : (a b c : Stroke) → Holding (shrink (a ∷ b ∷ c ∷ []))
unfolding shrink new_zone
shrink_three a b c = elim (Bool-cases (zone_valid (new_zone a (b ∷ c ∷ [])))) [
  | inl e ↦ rw e (e, (ground (arith, e), (ground (arith, e), (ground (arith, e), tt))))
  | inr e ↦ rw e (shrink_two b c)
]

-- Strokes leave only at the front.
shrink_drops : (ss : List Stroke) → (dropped : List Stroke) × (dropped ++ shrink ss ≡ ss)
unfolding shrink
shrink_drops [] = ([], refl)
shrink_drops (a ∷ []) = ([], refl)
shrink_drops (a ∷ b ∷ ss) = elim (Bool-cases (zone_valid (new_zone a (b ∷ ss)))) [
  | inl e ↦ ([], rw e refl)
  | inr e ↦ let (dropped, h) = shrink_drops (b ∷ ss) in (a ∷ dropped, rw e (ap (λ t. a ∷ t) h))
]

-- The zones so far, and the group that is open, before the strokes to come.
record Open (strokes : List Stroke) (out : List Zone) (group rest : List Stroke) : Type 0 where
  pub zones : All (IsZone strokes) out
  pub holding : Holding group
  pub before : List Stroke
  pub found : before ++ (group ++ rest) ≡ strokes

close_zone-IsZone :
    (strokes : List Stroke) (out : List Zone) (group rest : List Stroke)
    → Open strokes out group rest
    → All (IsZone strokes) (close_zone out group)
unfolding close_zone new_zone
close_zone-IsZone strokes out (a ∷ b ∷ c ∷ ss) rest h =
    let (e, crossed) = h.holding in
    rw (e, new_zone)
      (
        record {
          before = h.before;
          first = a;
          second = b;
          third = c;
          more = ss;
          after = rest;
          found = h.found;
          made = refl;
          valid = ground (arith, e);
          crossed = crossed;
        },
        h.zones,
      )
close_zone-IsZone strokes out (a ∷ b ∷ []) rest h = h.zones
close_zone-IsZone strokes out (a ∷ []) rest h = h.zones
close_zone-IsZone strokes out [] rest h = h.zones

-- A shrunk group of what a group and a stroke make.
reopened :
    (strokes : List Stroke) (out : List Zone) (group : List Stroke) (s : Stroke)
    (rest : List Stroke)
    → Open strokes out group (s ∷ rest)
    → Holding (shrink (group ++ (s ∷ [])))
    → Open strokes out (shrink (group ++ (s ∷ []))) rest
reopened strokes out group s rest h k =
    let (dropped, d) = shrink_drops (group ++ (s ∷ [])) in
    let whole : (dropped ++ shrink (group ++ (s ∷ []))) ++ rest ≡ group ++ (s ∷ rest) =
      ap (λ t. t ++ rest) d ∙ append_assoc group (s ∷ []) rest in
    record {
      zones = h.zones;
      holding = k;
      before = h.before ++ dropped;
      found =
          append_assoc h.before dropped (shrink (group ++ (s ∷ [])) ++ rest)
          ∙ ap (λ t. h.before ++ t)
              (sym (append_assoc dropped (shrink (group ++ (s ∷ []))) rest) ∙ whole)
          ∙ h.found;
    }

restarted :
    (strokes : List Stroke) (out : List Zone) (group : List Stroke) (s : Stroke)
    (rest : List Stroke)
    → Open strokes out group (s ∷ rest)
    → Open strokes (close_zone out group) (s ∷ []) rest
restarted strokes out group s rest h = record {
  zones = close_zone-IsZone strokes out group (s ∷ rest) h;
  holding = tt;
  before = h.before ++ group;
  found = append_assoc h.before group (s ∷ rest) ∙ h.found;
}

shrink_holding :
    (a b c : Stroke) (ss : List Stroke)
    → zone_valid (new_zone a (b ∷ c ∷ ss)) ≡ true
    → shrink (a ∷ b ∷ c ∷ ss) ≡ a ∷ b ∷ c ∷ ss
unfolding shrink
shrink_holding a b c ss h = rw h refl

close_zone_holding :
    (out : List Zone) (a b c : Stroke) (ss : List Stroke)
    → zone_valid (new_zone a (b ∷ c ∷ ss)) ≡ true
    → close_zone out (a ∷ b ∷ c ∷ ss) ≡ new_zone a (b ∷ c ∷ ss) ∷ out
unfolding close_zone
close_zone_holding out a b c ss h = rw h refl

overlap-Crossed : (s : Stroke) (z : Zone) → zone_overlaps s z ≡ true → Crossed z s
overlap-Crossed s z h = ground (arith, h)

zone_step-Open :
    (strokes : List Stroke) (out : List Zone) (group : List Stroke) (s : Stroke)
    (rest : List Stroke)
    → Open strokes out group (s ∷ rest)
    → Open strokes (zone_step out group s).0 (zone_step out group s).1 rest
unfolding zone_step
zone_step-Open strokes out [] s rest h = reopened strokes out [] s rest h (unfold shrink in tt)
zone_step-Open strokes out (a ∷ []) s rest h =
    reopened strokes out (a ∷ []) s rest h (shrink_two a s)
zone_step-Open strokes out (a ∷ b ∷ []) s rest h =
    reopened strokes out (a ∷ b ∷ []) s rest h (shrink_three a b s)
zone_step-Open strokes out (a ∷ b ∷ c ∷ ss) s rest h =
    let (e, crossed) = h.holding in
    elim (Bool-cases (zone_overlaps s (new_zone a (b ∷ c ∷ ss)))) [
      | inl o ↦
          let same = shrink_holding a b c (ss ++ (s ∷ [])) e in
          let all =
            All-append (Crossed (new_zone a (b ∷ c ∷ ss))) (a ∷ b ∷ c ∷ ss) (s ∷ []) crossed
              (overlap-Crossed s (new_zone a (b ∷ c ∷ ss)) o, tt) in
          rw e (
            rw o (
              subst (λ t. Open strokes out t rest) same
                (reopened strokes out (a ∷ b ∷ c ∷ ss) s rest h
                  (subst Holding (sym same) (e, all)))))
      | inr o ↦ rw e (
          rw o (
            subst (λ t. Open strokes t (s ∷ []) rest) (close_zone_holding out a b c ss e)
              (restarted strokes out (a ∷ b ∷ c ∷ ss) s rest h)))
    ]

zone_loop_zones :
    (strokes : List Stroke) (out : List Zone) (group rest : List Stroke)
    → Open strokes out group rest
    → All (IsZone strokes) (zone_loop out group rest)
unfolding zone_loop
zone_loop_zones strokes out group [] h = close_zone-IsZone strokes out group [] h
zone_loop_zones strokes out group (s ∷ rest) h =
    zone_loop_zones strokes (zone_step out group s).0 (zone_step out group s).1 rest
      (zone_step-Open strokes out group s rest h)

-- Every zone that `buildZones` reports is that of three or more strokes in a row: its lower end is at
-- most its upper end, and every one of its strokes reaches into the range between them.
pub build_zones-IsZone : (strokes : List Stroke) → All (IsZone strokes) (build_zones strokes)
unfolding build_zones
build_zones-IsZone strokes = All-reverse (IsZone strokes) (zone_loop [] [] strokes) (
    zone_loop_zones strokes [] [] strokes
      (record { zones = tt; holding = tt; before = []; found = refl }))
