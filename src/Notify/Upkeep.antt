-- ===== src/Notify/Upkeep.antt =====
-- internal/notify/notify.go: `Normalize`, `Expire`, `Prune` and `Retry`, the methods that range over
-- every event.
pub mod Recovery
pub mod Expiry
pub mod Pruning
pub mod Retrying
use mathlib.Core.Option
use job_time_stock_watcher.Base.{
  ℕ, ◌+◌, ◌*◌, ◌^◌, ◌≤◌, min, ℤ, pos, negsuc, is_neg, inc, Bool, true, false, not, ◌&&◌, ◌||◌, suc,
  inl, inr, ◌⊎◌, Option, none, some, List, [], ◌∷◌, Text, Map, text_eq, lookup, insert, delete,
  map_values, ltb, leb, ◌==◌, if◌then◌else◌, any, all, is_some, is_empty,
}
use job_time_stock_watcher.Notify.{
  Kind, Status, Message, DeliveryError, ChannelState, Event, Ledger, Error, panicked,
  channel_required, event_changed, invalid_message, unsupported_version, event_not_found,
  channel_not_found, no_blocked_delivery,
}
use job_time_stock_watcher.Notify.States.{
  channel_map, minute, is_terminal, is_delivered, is_expired, is_blocked, is_in_flight,
  map_channels, terminal_event,
}

-- Normalize. The state of a channel that was in flight when the process stopped.
unfoldable pub recover : ChannelState → ChannelState
recover s =
    if is_in_flight s.status
    then record s {
      status = Status.unknowned;
      kind = Kind.unknown;
      in_flight_at = 0;
      possibly_duplicate = true;
    }
    else s

-- A nil map of channels becomes an empty one.
abbrev pub recover_event : Event → Event
recover_event e = record e { channels = some (map_values (λ ch s. recover s) (channel_map e)) }

abbrev pub needs_recovery : Event → Bool
needs_recovery e =
    not (is_some e.channels) || any (λ (ch, s). is_in_flight s.status) (channel_map e)

unfoldable pub normalize : Ledger → Ledger × Bool
unfolding recover
normalize l = (
  record l { events = map_values (λ id e. recover_event e) l.events },
  any (λ (id, e). needs_recovery e) l.events,
)

-- The loops of `Expire`: an event is past its expiry, and a state that it changes.
abbrev pub is_past : ℕ → Event → Bool
is_past now e = not (e.expires_at == 0) && leb e.expires_at now

abbrev pub is_closed : Status → Bool
is_closed st = is_delivered st || is_expired st

unfoldable pub expire_state : ChannelState → ChannelState
expire_state s =
    if is_closed s.status
    then s
    else record s { status = Status.expired; kind = Kind.unset; next_attempt = 0; in_flight_at = 0 }

abbrev pub expire_event : ℕ → Event → Event
expire_event now e = if is_past now e then map_channels (λ ch s. expire_state s) e else e

abbrev pub needs_expiry : ℕ → Event → Bool
needs_expiry now e = is_past now e && any (λ (ch, s). not (is_closed s.status)) (channel_map e)

unfoldable pub expire : Ledger → ℕ → Ledger × Bool
unfolding expire_state
expire l now = (
  record l { events = map_values (λ id e. expire_event now e) l.events },
  any (λ (id, e). needs_expiry now e) l.events,
)

abbrev pub dependency_pending : Map Event → Text → Bool
dependency_pending events id =
    any (λ (i, e). text_eq e.depends_on id && not (terminal_event e)) events

abbrev pub removable : ℕ → ℕ → Map Event → Text → Event → Bool
removable now keep_for events id e =
    not (e.expires_at == 0)
    && leb (e.expires_at + keep_for) now
    && terminal_event e
    && not (dependency_pending events id)

-- The loop of `Prune` over the events that the map held at its start; each round reads the map as
-- the rounds before it left it.
unfoldable pub prune_loop : ℕ → ℕ → Map Event → Map Event → Bool → Map Event × Bool
prune_loop now keep_for [] events changed = (events, changed)
prune_loop now keep_for ((id, e) ∷ rest) events changed =
    let drop = removable now keep_for events id e in
    prune_loop now keep_for rest (if drop then delete id events else events) (drop || changed)

unfoldable pub prune : Ledger → ℕ → ℕ → Ledger × Bool
unfolding prune_loop
prune l now keep_for =
    let (events, changed) = prune_loop now keep_for l.events l.events false in
    (record l { events = events }, changed)

-- `channel` empty stands for every channel.
abbrev pub retries : Text → Text → ChannelState → Bool
retries channel name s = (is_empty channel || text_eq name channel) && is_blocked s.status

unfoldable pub retry_state : Text → Text → ChannelState → ChannelState
retry_state channel name s =
    if retries channel name s
    then record s { status = Status.pending; kind = Kind.unset; next_attempt = 0 }
    else s

abbrev pub count_if {ℓ} : {A : Type ℓ} → (A → Bool) → List A → ℕ
count_if p [] = 0
count_if p (x ∷ xs) = let rest = count_if p xs in if p x then suc rest else rest

abbrev pub retry_event : Text → ℕ → Event → Event
retry_event channel now e =
    if e.expires_at == 0 || leb e.expires_at now then e else map_channels (retry_state channel) e

abbrev pub retried : Text → ℕ → Map Event → ℕ
retried channel now [] = 0
retried channel now ((id, e) ∷ rest) =
    (if e.expires_at == 0 || leb e.expires_at now
      then 0
      else count_if (λ (name, s). retries channel name s) (channel_map e))
    + retried channel now rest

-- The number of deliveries that were put back, or the error where there is none.
unfoldable pub retry : Ledger → Text → ℕ → Ledger × (ℕ ⊎ Error)
unfolding retry_state
retry l channel now =
    let n = retried channel now l.events in
    (
      record l { events = map_values (λ id e. retry_event channel now e) l.events },
      if n == 0 then inr no_blocked_delivery else inl n,
    )
