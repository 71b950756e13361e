-- ===== src/Notify/Schedule.antt =====
-- internal/notify/notify.go: `Due` and `CanDeliver`.
use job_time_stock_watcher.Base.{
  ℕ, Bool, true, false, not, ◌&&◌, ◌||◌, Option, none, some, List, [], ◌∷◌, ◌++◌, Text, Map,
  text_eq, text_ltb, lookup, ltb, leb, if◌then◌else◌, is_empty, is_some, sort_by, ltb_ℤ, eq_ℤ,
}
use job_time_stock_watcher.Notify.{Status, ChannelState, Event, Ledger, Delivery}
pub mod Selection
use job_time_stock_watcher.Notify.States.{channel_map, is_delivered}

-- The order of `Due`: by date, then sequence, then identifier.
unfoldable pub event_less : Text × Event → Text × Event → Bool
event_less (i, e) (j, f) =
    if not (text_eq e.as_of f.as_of)
    then text_ltb e.as_of f.as_of
    else if not (eq_ℤ e.sequence f.sequence)
    then ltb_ℤ e.sequence f.sequence
    else text_ltb i j

unfoldable pub channel_less : Text × ChannelState → Text × ChannelState → Bool
channel_less (c, s) (d, t) = text_ltb c d

abbrev pub awaits : Status → Bool
awaits Status.pending = true
awaits Status.unknowned = true
awaits _ = false

abbrev pub is_ready : ℕ → ChannelState → Bool
is_ready now s = awaits s.status && leb s.next_attempt now

abbrev pub delivery : Text → Event → Text → Delivery
delivery id e ch = record { event_id = id; channel = ch; message = e.message }

unfoldable pub ready_channels : ℕ → Text → Event → Map ChannelState → List Delivery
ready_channels now id e [] = []
ready_channels now id e ((ch, s) ∷ rest) =
    let more = ready_channels now id e rest in
    if is_ready now s then delivery id e ch ∷ more else more

unfoldable pub event_due : ℕ → Text → Event → List Delivery
unfolding ready_channels channel_less
event_due now id e =
    if ltb now e.expires_at
    then ready_channels now id e (sort_by channel_less (channel_map e))
    else []

unfoldable pub due_events : ℕ → Map Event → List Delivery
unfolding event_due
due_events now [] = []
due_events now ((id, e) ∷ rest) = event_due now id e ++ due_events now rest

unfoldable pub due : Ledger → ℕ → List Delivery
unfolding due_events event_less
due l now = due_events now (sort_by event_less l.events)

unfoldable pub can_deliver : Ledger → Text → Text → Bool
can_deliver l id ch = elim (lookup id l.events) [
  | none ↦ false
  | some e ↦ if is_empty e.depends_on then true else elim (lookup e.depends_on l.events) [
    | none ↦ false
    | some d ↦ elim (lookup ch (channel_map d)) [ none ↦ false | some s ↦ is_delivered s.status ]
  ]
]
