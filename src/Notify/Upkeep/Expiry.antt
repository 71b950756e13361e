-- ===== src/Notify/Upkeep/Expiry.antt =====
-- What `Expire` does.
use mathlib.Core.Option
use job_time_stock_watcher.Base.{
  ℕ, ◌<◌, false, not, ◌&&◌, ◌||◌, some, [], ◌∷◌, Text, Map, leb, ◌≡◌, inl, inr, refl, arith, lookup,
  map_values, if◌then◌else◌, Option-cases, any,
}
use job_time_stock_watcher.Notify.{Kind, Status, ChannelState, Event, Ledger}
use job_time_stock_watcher.Notify.States.{
  is_delivered, is_expired, channel_map, state_at, state_at-map_values, lookup-map_channels,
}
use job_time_stock_watcher.Notify.Upkeep.{
  is_past, is_closed, expire_state, expire_event, needs_expiry, expire,
}

state_at-expire :
    (l : Ledger) (now : ℕ) (id ch : Text) (e : Event)
    → lookup id l.events ≡ some e
    → state_at (expire l now).0.events id ch ≡ (
        if is_past now e
        then Option.map expire_state (state_at l.events id ch)
        else state_at l.events id ch)
unfolding expire
state_at-expire l now id ch e q = ground (
  arith,
  q,
  state_at-map_values (λ i e. expire_event now e) id ch l.events,
  lookup-map_channels (λ c s. expire_state s) e ch,
)

expire_none :
    (m : Map ChannelState)
    → any (λ (ch, s). not (is_closed s.status)) m ≡ false
    → map_values (λ ch s. expire_state s) m ≡ m
unfolding map_values expire_state
expire_none [] h = refl
expire_none ((c, s) ∷ m) h = ground (arith, expire_none m)

expire_events_none :
    (now : ℕ) (m : Map Event)
    → any (λ (id, e). needs_expiry now e) m ≡ false
    → map_values (λ id e. expire_event now e) m ≡ m
unfolding map_values
expire_events_none now [] h = refl
expire_events_none now ((i, e) ∷ m) h = elim (Option-cases e.channels) [
  | inl n ↦ ground (arith, n, expire_events_none now m)
  | inr (cs, q) ↦ ground (arith, q, expire_none cs, expire_events_none now m)
]

expire_state_closed :
    (m : Map ChannelState)
    → any (λ (ch, s). not (is_closed s.status)) (map_values (λ ch s. expire_state s) m) ≡ false
unfolding map_values expire_state
expire_state_closed [] = refl
expire_state_closed ((c, s) ∷ m) = ground (arith, expire_state_closed m)

expire_events_settled :
    (now : ℕ) (m : Map Event)
    → any (λ (id, e). needs_expiry now e) (map_values (λ id e. expire_event now e) m) ≡ false
unfolding map_values
expire_events_settled now [] = refl
expire_events_settled now ((i, e) ∷ m) = elim (Option-cases e.channels) [
  | inl n ↦ ground (arith, n, expire_events_settled now m)
  | inr (cs, q) ↦ ground (arith, q, expire_state_closed cs, expire_events_settled now m)
]

-- `Expire` closes every channel of an event at or past its expiry that is neither delivered nor
-- expired: it becomes expired, with no kind, retry time or send time. Every other channel reads as
-- before.
pub expire_closes :
    (l : Ledger) (now : ℕ) (id ch : Text) (e : Event) (s : ChannelState)
    → lookup id l.events ≡ some e
    → lookup ch (channel_map e) ≡ some s
    → 0 < e.expires_at
    → state_at (expire l now).0.events id ch
      ≡ some (
          if leb e.expires_at now && not (is_delivered s.status || is_expired s.status)
          then record s {
            status = Status.expired;
            kind = Kind.unset;
            next_attempt = 0;
            in_flight_at = 0;
          }
          else s)
unfolding expire_state
expire_closes l now id ch e s q c pos = ground (arith, state_at-expire l now id ch e q, q, c)

-- A second `Expire` at the same time changes nothing and reports no change.
pub expire_settles :
    (l : Ledger) (now : ℕ) → expire (expire l now).0 now ≡ ((expire l now).0, false)
unfolding expire
expire_settles l now =
    let settled = expire_events_settled now l.events in
    let fixed = expire_events_none now (map_values (λ id e. expire_event now e) l.events) settled in
    λ i. (record l { events = fixed i }, settled i)
