-- ===== src/Notify/Validate.antt =====
-- internal/notify/notify.go: `Ledger.Validate`. The program ranges over the events and their
-- channels in any order and returns the first error that it meets; the model goes by the list.
pub mod Carried
pub mod Gentle
pub mod Kept
pub mod Pruned
use job_time_stock_watcher.Base.{
  Bool, true, false, not, ◌&&◌, ◌||◌, Option, none, some, [], ◌∷◌, Text, Map, text_eq, lookup, ◌==◌,
  if◌then◌else◌, is_empty, is_neg, ltb_ℤ, valid_date,
}
use job_time_stock_watcher.Notify.{
  Status, ChannelState, Event, Ledger, Error, unsupported_version, invalid_ledger, invalid_date,
  expiry_mismatch, invalid_dependency_order, missing_dependency, invalid_channel_state,
  invalid_status,
}
use job_time_stock_watcher.Notify.States.{channel_map, terminal_event}
use job_time_stock_watcher.Notify.Enqueue.{supported_message_version}

abbrev pub is_known : Status → Bool
is_known (Status.other _) = false
is_known _ = true

unfoldable pub check_channels : Map ChannelState → Option Error
check_channels [] = none
check_channels ((ch, s) ∷ rest) =
    let more = check_channels rest in
    if is_empty ch || is_neg s.attempts
    then some invalid_channel_state
    else if not (is_known s.status)
    then some invalid_status
    else more

unfoldable pub check_dependency : Map Event → Event → Option Error
check_dependency events e =
    if is_empty e.depends_on then none else elim (lookup e.depends_on events) [
      | some d ↦ if ltb_ℤ d.sequence e.sequence then none else some invalid_dependency_order
      | none ↦ if terminal_event e then none else some missing_dependency
    ]

abbrev pub is_malformed : Text → Event → Bool
is_malformed id e =
    is_empty id
    || is_empty e.as_of
    || not (supported_message_version e.message.version)
    || not (text_eq e.message.event_id id)
    || e.expires_at == 0
    || is_empty (channel_map e)
    || is_neg e.sequence
    || text_eq e.depends_on id

unfoldable pub check_event : Map Event → Text → Event → Option Error
unfolding check_channels check_dependency
check_event events id e =
    if is_malformed id e
    then some invalid_ledger
    else if not (valid_date e.as_of)
    then some invalid_date
    else if e.message.expires_at == 0 || not (e.message.expires_at == e.expires_at)
    then some expiry_mismatch
    else elim (check_dependency events e) [
      | some x ↦ some x
      | none ↦ check_channels (channel_map e)
    ]

unfoldable pub check_events : Map Event → Map Event → Option Error
unfolding check_event
check_events events [] = none
check_events events ((id, e) ∷ rest) =
    let more = check_events events rest in
    elim (check_event events id e) [ some x ↦ some x | none ↦ more ]

unfoldable pub validate : Ledger → Option Error
unfolding check_events
validate l =
    if not (l.version == 2) then some unsupported_version else check_events l.events l.events
