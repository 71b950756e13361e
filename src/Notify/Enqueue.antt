-- ===== src/Notify/Enqueue.antt =====
-- internal/notify/notify.go: `NewLedger`, `Enqueue` and `EnqueuePart`.
-- A method on a pointer returns the new ledger beside its result.
pub mod Additions
pub mod Keeping
use mathlib.Core.Option
use job_time_stock_watcher.Base.{
  ℕ, ◌+◌, ◌*◌, ◌^◌, ◌≤◌, min, ℤ, pos, negsuc, is_neg, inc, Bool, true, false, not, ◌&&◌, ◌||◌, suc,
  inl, inr, ◌⊎◌, Option, none, some, List, [], ◌∷◌, Text, Map, text_eq, lookup, insert, delete,
  map_values, ltb, leb, ◌==◌, if◌then◌else◌, any, all, is_some, is_empty,
}
use job_time_stock_watcher.Notify.{
  Kind, Status, Message, DeliveryError, ChannelState, Event, Ledger, Error, panicked,
  channel_required, event_changed, invalid_message, unsupported_version, event_not_found,
  channel_not_found, no_blocked_delivery,
}
use job_time_stock_watcher.Notify.States.{
  channel_map, minute, is_terminal, is_delivered, is_expired, is_blocked, is_in_flight,
  map_channels, terminal_event,
}

unfoldable pub new_ledger : Ledger
new_ledger = record { version = 2; events = [] }

abbrev pub supported_message_version : ℕ → Bool
supported_message_version v = v == 1 || v == 2

abbrev pub fresh_state : ChannelState
fresh_state = record {
  status = Status.pending;
  kind = Kind.unset;
  attempts = pos 0;
  next_attempt = 0;
  in_flight_at = 0;
  possibly_duplicate = false;
}

-- The loop over `channels`: the map as the loop leaves it, and the error that stopped it.
unfoldable pub add_channels : List Text → Map ChannelState → Map ChannelState × Option Error
add_channels [] m = (m, none)
add_channels (c ∷ cs) m =
    let rest = add_channels cs (if is_some (lookup c m) then m else insert c fresh_state m) in
    if is_empty c then (m, some channel_required) else rest

-- The event's map is shared with the ledger, so an error leaves the channels added before it in an
-- event that was there already. A write to a nil map panics.
enqueue_existing : Ledger → Text → Event → List Text → Ledger × Option Error
unfolding add_channels
enqueue_existing l id e channels = elim (e.channels) [
  | none ↦ elim channels [
    | [] ↦ (l, none)
    | c ∷ _ ↦ (l, some (if is_empty c then channel_required else panicked))
  ]
  | some m ↦
      let (m', err) = add_channels channels m in
      (record l { events = insert id (record e { channels = some m' }) l.events }, err)
]

-- A new event is stored only after the loop.
enqueue_new : Ledger → Text → Event → List Text → Ledger × Option Error
unfolding add_channels
enqueue_new l id e channels =
    let (m, err) = add_channels channels [] in
    elim err [
      | none ↦ (record l { events = insert id (record e { channels = some m }) l.events }, none)
      | some x ↦ (l, some x)
    ]

-- A ledger decoded without a version is taken for the current one.
abbrev pub versioned : Ledger → Ledger
versioned l = record l { version = if l.version == 0 then 2 else l.version }

abbrev pub new_event : Text → Message → Text → ℤ → Text → Event
new_event as_of message part sequence depends_on = record {
  as_of = as_of;
  expires_at = message.expires_at;
  part = part;
  sequence = sequence;
  depends_on = depends_on;
  message = message;
  channels = some [];
}

abbrev pub is_invalid : Text → Message → ℤ → Text → Bool
is_invalid as_of message sequence depends_on =
    not (supported_message_version message.version)
    || is_empty message.event_id
    || is_empty as_of
    || message.expires_at == 0
    || is_neg sequence
    || text_eq depends_on message.event_id

-- The part after the guards.
unfoldable pub store_part : Ledger → Text → Message → List Text → Event → Ledger × Option Error
unfolding enqueue_existing enqueue_new
store_part l as_of message channels fresh = elim (lookup message.event_id l.events) [
  | none ↦ enqueue_new l message.event_id fresh channels
  | some e ↦
      if not (text_eq e.as_of as_of) || not (text_eq e.message.event_id message.event_id)
      then (l, some event_changed)
      else enqueue_existing l message.event_id e channels
]

unfoldable pub enqueue_part :
    Ledger → Text → Message → List Text → Text → ℤ → Text → Ledger × Option Error
unfolding store_part
enqueue_part l as_of message channels part sequence depends_on =
    if not ((versioned l).version == 2)
    then (versioned l, some unsupported_version)
    else if is_invalid as_of message sequence depends_on
    then (versioned l, some invalid_message)
    else store_part (versioned l) as_of message channels
        (new_event as_of message part sequence depends_on)

unfoldable pub enqueue : Ledger → Text → Message → List Text → Ledger × Option Error
unfolding enqueue_part
enqueue l as_of message channels = enqueue_part l as_of message channels [] (pos 0) []
