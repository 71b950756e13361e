-- ===== src/Dayrange/Delivery/Setup.antt =====
-- Configuring a delivery takes a valid ledger over, and recovers what a stopped process left in flight.
use job_time_stock_watcher.Base.{
  true, false, [], ◌∷◌, Option, none, Text, Map, map_values, any, All, ◌≡◌, refl, arith, ◌==◌,
  if◌then◌else◌,
}
use job_time_stock_watcher.Notify.{ChannelState, Event, Ledger}
use job_time_stock_watcher.Notify.States.{channel_map, is_in_flight}
use job_time_stock_watcher.Notify.Upkeep.{normalize, recover, recover_event}
use job_time_stock_watcher.Notify.Validate.{validate}
use job_time_stock_watcher.Notify.Validate.Kept.{upkeep_keeps_valid}
use job_time_stock_watcher.Dayrange.Delivery.{running, halt_of, present, ready, configure}

-- No channel of the event is in flight.
abbrev pub IsGrounded : Event → Type 0
IsGrounded e = any (λ (ch, s). is_in_flight s.status) (channel_map e) ≡ false

none_in_flight :
    (m : Map ChannelState)
    → any (λ (ch, s). is_in_flight s.status) (map_values (λ ch s. recover s) m) ≡ false
unfolding map_values recover
none_in_flight [] = refl
none_in_flight ((ch, s) ∷ m) = ground (arith, none_in_flight m)

All-IsGrounded :
    (m : Map Event)
    → All (λ (p : Text × Event). IsGrounded p.1) (map_values (λ id e. recover_event e) m)
unfolding map_values
All-IsGrounded [] = tt
All-IsGrounded ((id, e) ∷ m) = (none_in_flight (channel_map e), All-IsGrounded m)

-- Of a valid ledger in the store, `ConfigureDelivery` takes over a valid ledger with no channel in
-- flight; it is written only if that changed it.
pub configure_present :
    (save : Option Text) (l : Ledger)
    → validate l ≡ none
    → (m : Ledger) × (configure save (present l)
        ≡ ready m (if (normalize l).1 then halt_of save else running))
      × (validate m ≡ none)
      × All (λ (p : Text × Event). IsGrounded p.1) m.events
unfolding configure
configure_present save l h =
    let version : (l.version == 2) ≡ true = unfold validate in ground (arith, h) in
    (
      (normalize l).0,
      ground (arith, version, h),
      (upkeep_keeps_valid l 0 h).0,
      unfold normalize in All-IsGrounded l.events,
    )
