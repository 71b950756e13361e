-- ===== src/Notify/States.antt =====
-- internal/notify/notify.go: tests on a status, and the channels of an event.
use mathlib.Core.Option
use job_time_stock_watcher.Base.{
  IsMap, All, lookup, ℕ, ◌*◌, Bool, true, false, inl, inr, Option, none, some, [], Text, Map,
  lookup, map_values, all, ◌≡◌, arith, lookup-map_values, Option-cases,
}
use job_time_stock_watcher.Notify.{Ledger, Status, ChannelState, Event, Ledger}

-- A range over a nil map has no rounds.
abbrev pub channel_map : Event → Map ChannelState
channel_map e = elim (e.channels) [ none ↦ [] | some m ↦ m ]

abbrev pub minute : ℕ
minute = 60 * 1000000000

-- Delivered, Blocked and Expired: the statuses that `Prune` and `Validate` call terminal.
abbrev pub is_terminal : Status → Bool
is_terminal Status.delivered = true
is_terminal Status.blocked = true
is_terminal Status.expired = true
is_terminal _ = false

abbrev pub is_delivered : Status → Bool
is_delivered Status.delivered = true
is_delivered _ = false

abbrev pub is_expired : Status → Bool
is_expired Status.expired = true
is_expired _ = false

abbrev pub is_blocked : Status → Bool
is_blocked Status.blocked = true
is_blocked _ = false

abbrev pub is_in_flight : Status → Bool
is_in_flight Status.in_flight = true
is_in_flight _ = false

abbrev pub map_channels : (Text → ChannelState → ChannelState) → Event → Event
map_channels f e = record e { channels = Option.map (map_values f) e.channels }

abbrev pub terminal_event : Event → Bool
terminal_event e = all (λ (ch, s). is_terminal s.status) (channel_map e)

-- The state of one channel of one event.
abbrev pub state_at : Map Event → Text → Text → Option ChannelState
state_at events id ch = elim (lookup id events) [ none ↦ none | some e ↦ lookup ch (channel_map e) ]

-- The association lists of a ledger stand for maps: no event and no channel is listed twice.
pub record IsLedger (l : Ledger) : Type 0 where
  pub events_map : IsMap l.events
  pub channel_maps : All (λ (p : Text × Event). IsMap (channel_map p.1)) l.events

pub state_at-map_values :
    (f : Text → Event → Event) (id ch : Text) (m : Map Event)
    → state_at (map_values f m) id ch
      ≡ elim (lookup id m) [ none ↦ none | some e ↦ lookup ch (channel_map (f id e)) ]
state_at-map_values f id ch m = elim (Option-cases (lookup id m)) [
  | inl n ↦ ground (arith, n, lookup-map_values f id m)
  | inr (e, q) ↦ ground (arith, q, lookup-map_values f id m)
]

pub lookup-map_channels :
    (g : Text → ChannelState → ChannelState) (e : Event) (ch : Text)
    → lookup ch (channel_map (map_channels g e)) ≡ Option.map (g ch) (lookup ch (channel_map e))
unfolding lookup
lookup-map_channels g e ch = elim (Option-cases e.channels) [
  | inl n ↦ ground (arith, n)
  | inr (m, q) ↦ ground (arith, q, lookup-map_values g ch m)
]
