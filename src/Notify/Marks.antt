-- ===== src/Notify/Marks.antt =====
-- internal/notify/notify.go: `MarkInFlight`, `MarkDelivered`, `MarkFailure` and `MarkUnknown`.
pub mod Locality
pub mod Backoff
use mathlib.Core.Option
use job_time_stock_watcher.Base.{
  ℕ, ◌+◌, ◌*◌, ◌^◌, ◌≤◌, min, ℤ, pos, negsuc, is_neg, inc, Bool, true, false, not, ◌&&◌, ◌||◌, suc,
  inl, inr, ◌⊎◌, Option, none, some, List, [], ◌∷◌, Text, Map, text_eq, lookup, insert, delete,
  map_values, ltb, leb, ◌==◌, if◌then◌else◌, any, all, is_some, is_empty,
}
use job_time_stock_watcher.Notify.{
  Kind, Status, Message, DeliveryError, ChannelState, Event, Ledger, Error, panicked,
  channel_required, event_changed, invalid_message, unsupported_version, event_not_found,
  channel_not_found, no_blocked_delivery,
}
use job_time_stock_watcher.Notify.States.{
  channel_map, minute, is_terminal, is_delivered, is_expired, is_blocked, is_in_flight,
  map_channels, terminal_event,
}

abbrev pub channel_state : Ledger → Text → Text → ChannelState ⊎ Error
channel_state l id ch = elim (lookup id l.events) [
  | none ↦ inr event_not_found
  | some e ↦ elim (lookup ch (channel_map e)) [ none ↦ inr channel_not_found | some s ↦ inl s ]
]

-- `l.Events[eventID].Channels[channel] = state`
abbrev pub put_state : Ledger → Text → Text → ChannelState → Ledger
put_state l id ch s = elim (lookup id l.events) [
  | none ↦ l
  | some e ↦ record l {
    events = insert id (record e { channels = Option.map (insert ch s) e.channels }) l.events;
  }
]

-- Read a channel's state, and write it back changed.
abbrev pub change_state :
    (ChannelState → ChannelState) → Ledger → Text → Text → Ledger × Option Error
change_state f l id ch = elim (channel_state l id ch) [
  | inl s ↦ (put_state l id ch (f s), none)
  | inr x ↦ (l, some x)
]

unfoldable pub mark_in_flight : Ledger → Text → Text → ℕ → Ledger × Option Error
mark_in_flight l id ch now =
    change_state (λ s. record s { status = Status.in_flight; in_flight_at = now }) l id ch

unfoldable pub mark_delivered : Ledger → Text → Text → Ledger × Option Error
mark_delivered l id ch =
    change_state
      (λ s. record s {
        status = Status.delivered;
        kind = Kind.unset;
        next_attempt = 0;
        in_flight_at = 0;
      })
      l id ch

unfoldable pub mark_unknown : Ledger → Text → Text → Ledger × Option Error
mark_unknown l id ch =
    change_state
      (λ s. record s {
        status = Status.unknowned;
        kind = Kind.unknown;
        in_flight_at = 0;
        possibly_duplicate = true;
      })
      l id ch

abbrev pub is_permanent : Kind → Bool
is_permanent Kind.permanent = true
is_permanent _ = false

-- `time.Duration(1<<min(attempts, 8)) * time.Minute`; the shift panics at a negative count.
abbrev pub backoff : ℤ → Option ℕ
backoff (pos n) = some (2 ^ min n 8 * minute)
backoff (negsuc n) = none

-- The state after a failure, and `none` for a panic.
unfoldable pub fail_state : DeliveryError → ℕ → ChannelState → Option ChannelState
fail_state failure now s =
    let s' = record s { attempts = inc s.attempts; kind = failure.kind; in_flight_at = 0 } in
    if is_permanent failure.kind
    then some (record s' { status = Status.blocked; next_attempt = 0 })
    else Option.map
        (λ delay. record s' {
          status = Status.pending;
          next_attempt =
              now + (if ltb delay failure.retry_after then failure.retry_after else delay);
        })
        (backoff s'.attempts)

-- `failure` is not nil: the code reads it without a test.
unfoldable pub mark_failure : Ledger → Text → Text → DeliveryError → ℕ → Ledger × Option Error
unfolding fail_state
mark_failure l id ch failure now = elim (channel_state l id ch) [
  | inr x ↦ (l, some x)
  | inl s ↦ elim (fail_state failure now s) [
    | none ↦ (l, some panicked)
    | some s' ↦ (put_state l id ch s', none)
  ]
]
