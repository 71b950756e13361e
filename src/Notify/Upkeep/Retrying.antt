-- ===== src/Notify/Upkeep/Retrying.antt =====
-- What `Retry` does.
use mathlib.Core.Option
use job_time_stock_watcher.Base.{
  ℕ, ◌==◌, leb, ltb, ◌&&◌, ◌||◌, some, [], ◌∷◌, Text, Map, ◌≡◌, inl, inr, refl, arith, lookup,
  map_values, if◌then◌else◌, Option-cases, is_empty, text_eq,
}
use job_time_stock_watcher.Notify.{Kind, Status, ChannelState, Event, Ledger, no_blocked_delivery}
use job_time_stock_watcher.Notify.States.{
  is_blocked, channel_map, state_at, state_at-map_values, lookup-map_channels,
}
use job_time_stock_watcher.Notify.Upkeep.{
  retries, retry_state, retry_event, retried, count_if, retry,
}

state_at-retry :
    (l : Ledger) (channel : Text) (now : ℕ) (id ch : Text) (e : Event)
    → lookup id l.events ≡ some e
    → state_at (retry l channel now).0.events id ch ≡ (
        if e.expires_at == 0 || leb e.expires_at now
        then state_at l.events id ch
        else Option.map (retry_state channel ch) (state_at l.events id ch))
unfolding retry
state_at-retry l channel now id ch e q = ground (
  arith,
  q,
  state_at-map_values (λ i e. retry_event channel now e) id ch l.events,
  lookup-map_channels (retry_state channel) e ch,
)

retry_none :
    (channel : Text) (m : Map ChannelState)
    → count_if (λ (name, s). retries channel name s) m ≡ 0
    → map_values (retry_state channel) m ≡ m
unfolding map_values retry_state
retry_none channel [] h = refl
retry_none channel ((c, s) ∷ m) h = ground (arith, retry_none channel m)

retry_events_none :
    (channel : Text) (now : ℕ) (m : Map Event)
    → retried channel now m ≡ 0
    → map_values (λ id e. retry_event channel now e) m ≡ m
unfolding map_values
retry_events_none channel now [] h = refl
retry_events_none channel now ((i, e) ∷ m) h = elim (Option-cases e.channels) [
  | inl n ↦ ground (arith, n, retry_events_none channel now m)
  | inr (cs, q) ↦ ground (arith, q, retry_none channel cs, retry_events_none channel now m)
]

-- `Retry` of one channel, or of all where the name is empty, makes a blocked delivery of a live
-- event pending with no retry time; a delivery of another channel, in another status or of an
-- expired event reads as before.
pub retry_unblocks :
    (l : Ledger) (channel : Text) (now : ℕ) (id ch : Text) (e : Event) (s : ChannelState)
    → lookup id l.events ≡ some e
    → lookup ch (channel_map e) ≡ some s
    → state_at (retry l channel now).0.events id ch
      ≡ some (
          if ltb now e.expires_at && is_blocked s.status && (is_empty channel || text_eq ch channel)
          then record s { status = Status.pending; kind = Kind.unset; next_attempt = 0 }
          else s)
unfolding retry_state
retry_unblocks l channel now id ch e s q c =
    ground (arith, state_at-retry l channel now id ch e q, q, c)

-- Where `Retry` reports that nothing was blocked, the ledger is unchanged.
pub retry_refused :
    (l : Ledger) (channel : Text) (now : ℕ)
    → (retry l channel now).1 ≡ inr no_blocked_delivery
    → (retry l channel now).0 ≡ l
unfolding retry
retry_refused l channel now h = ground (arith, h, retry_events_none channel now l.events)
