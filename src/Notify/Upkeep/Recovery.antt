-- ===== src/Notify/Upkeep/Recovery.antt =====
-- What `Normalize` does to a ledger that another process left.
use mathlib.Core.Option
use job_time_stock_watcher.Base.{
  true, false, some, [], ◌∷◌, Text, Map, ◌≡◌, inl, inr, refl, arith, lookup, lookup-map_values,
  map_values, if◌then◌else◌, Option-cases, any, ap,
}
use job_time_stock_watcher.Notify.{Kind, Status, ChannelState, Event, Ledger}
use job_time_stock_watcher.Notify.States.{channel_map, state_at, is_in_flight, state_at-map_values}
use job_time_stock_watcher.Notify.Upkeep.{recover, recover_event, needs_recovery, normalize}

state_at-normalize :
    (l : Ledger) (id ch : Text)
    → state_at (normalize l).0.events id ch ≡ Option.map recover (state_at l.events id ch)
unfolding normalize
state_at-normalize l id ch = elim (Option-cases (lookup id l.events)) [
  | inl n ↦ ground (arith, n, state_at-map_values (λ i e. recover_event e) id ch l.events)
  | inr (e, q) ↦ ground (
    arith,
    q,
    state_at-map_values (λ i e. recover_event e) id ch l.events,
    lookup-map_values (λ c s. recover s) ch (channel_map e),
  )
]

recover_none :
    (m : Map ChannelState)
    → any (λ (ch, s). is_in_flight s.status) m ≡ false
    → map_values (λ ch s. recover s) m ≡ m
unfolding map_values recover
recover_none [] h = refl
recover_none ((c, s) ∷ m) h = ground (arith, recover_none m)

recover_events_none :
    (m : Map Event)
    → any (λ (id, e). needs_recovery e) m ≡ false
    → map_values (λ id e. recover_event e) m ≡ m
unfolding map_values
recover_events_none [] h = refl
recover_events_none ((i, e) ∷ m) h = elim (Option-cases e.channels) [
  | inl n ↦ ground (arith, n)
  | inr (cs, q) ↦ ground (arith, q, recover_none cs, recover_events_none m)
]

-- After `Normalize` a channel that was in flight is unknown, possibly duplicate and no longer in
-- flight, and any other channel reads as before.
pub normalize_recovers :
    (l : Ledger) (id ch : Text) (s : ChannelState)
    → state_at l.events id ch ≡ some s
    → state_at (normalize l).0.events id ch
      ≡ some (
          if is_in_flight s.status
          then record s {
            status = Status.unknowned;
            kind = Kind.unknown;
            in_flight_at = 0;
            possibly_duplicate = true;
          }
          else s)
unfolding recover
normalize_recovers l id ch s at = ground (arith, at, state_at-normalize l id ch)

-- Where `Normalize` reports no change, it leaves the ledger as it was.
pub normalize_silent : (l : Ledger) → (normalize l).1 ≡ false → (normalize l).0 ≡ l
unfolding normalize
normalize_silent l h = ap (λ m. record l { events = m }) (recover_events_none l.events h)
