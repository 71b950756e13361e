-- ===== src/Notify.antt =====
-- internal/notify/notify.go: the delivery ledger's data. An instant is a number of nanoseconds,
-- and 0 is Go's zero time. A message carries its other fields, which the ledger never reads, as
-- one text.
pub mod States
pub mod Enqueue
pub mod Upkeep
pub mod Marks
pub mod Schedule
pub mod Validate
use job_time_stock_watcher.Base.{ℕ, ℤ, Option, Text, Map, Bool}

-- `custom` is any other string, which a persisted ledger may hold.
pub data Kind : Type 0 where
  unset retryable permanent unknown : Kind
  custom : Text → Kind

pub data Status : Type 0 where
  pending in_flight delivered blocked expired unknowned : Status
  other : Text → Status

pub record Message : Type 0 where
  pub version : ℕ
  pub event_id : Text
  pub expires_at : ℕ
  pub content : Text

pub record DeliveryError : Type 0 where
  pub kind : Kind
  pub retry_after : ℕ

pub record ChannelState : Type 0 where
  pub status : Status
  pub kind : Kind
  pub attempts : ℤ
  pub next_attempt : ℕ
  pub in_flight_at : ℕ
  pub possibly_duplicate : Bool

-- `channels` is `none` where the Go map is nil.
pub record Event : Type 0 where
  pub as_of : Text
  pub expires_at : ℕ
  pub part : Text
  pub sequence : ℤ
  pub depends_on : Text
  pub message : Message
  pub channels : Option (Map ChannelState)

pub record Ledger : Type 0 where
  pub version : ℕ
  pub events : Map Event

pub record Delivery : Type 0 where
  pub event_id : Text
  pub channel : Text
  pub message : Message

-- What the ledger's methods refuse. `panicked` is a run-time panic: a write to a nil map, or a
-- shift by a negative count.
pub data Error : Type 0 where
  unsupported_version invalid_message event_changed channel_required : Error
  event_not_found channel_not_found no_blocked_delivery panicked : Error
  invalid_ledger invalid_date expiry_mismatch invalid_dependency_order missing_dependency : Error
  invalid_channel_state invalid_status : Error
