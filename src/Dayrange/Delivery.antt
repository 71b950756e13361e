-- ===== src/Dayrange/Delivery.antt =====
-- internal/dayrange/delivery.go and execution.go: how the service delivers what a ledger has due.
-- `ConfigureDelivery` and `ConfigureExecutionDelivery` are alike, and so are `flushLocked` after its
-- guards and `flushExecutionLocked`. What the store, the clock and a channel do for one delivery is a
-- `Reply`: it is not the code's. The trace of a call is the list of its effects. The path of the ledger
-- and the logging are left out; the timeout of a send only bounds how long its channel may take.
pub mod Room
pub mod Kept
pub mod Routes
pub mod Trace
pub mod Flushing
pub mod Looping
pub mod Safety
pub mod Setup
use job_time_stock_watcher.Base.{
  ℕ, ◌*◌, Bool, true, false, not, ◌||◌, List, [], ◌∷◌, ◌++◌, Option, none, some, Text, text_eq, any,
  inl, inr, is_empty, leb, ◌==◌, if◌then◌else◌,
}
use job_time_stock_watcher.Notify.{Kind, DeliveryError, Message, Ledger, Delivery, Error, panicked}
use job_time_stock_watcher.Notify.Upkeep.{normalize, expire, prune}
use job_time_stock_watcher.Notify.Marks.{
  channel_state, mark_in_flight, mark_delivered, mark_failure,
}
use job_time_stock_watcher.Notify.Schedule.{due, can_deliver}
use job_time_stock_watcher.Notify.Enqueue.{new_ledger}
use job_time_stock_watcher.Notify.Validate.{validate}

-- `refused` has the error if it is a `DeliveryError`; `refused_nil` is a nil `*DeliveryError` as an
-- error.
pub data Sending : Type 0 where
  accepted : Sending
  refused : Option DeliveryError → Sending
  refused_nil : Sending

abbrev pub is_nil : Sending → Bool
is_nil refused_nil = true
is_nil _ = false

-- The clock readings are in the order of the code; a store error is a text.
pub record Reply : Type 0 where
  pub check : Option Text
  pub save_ahead : Option Text
  pub before_send : ℕ
  pub expiring_at : ℕ
  pub sending : Sending
  pub failed_at : ℕ
  pub save_after : Option Text

pub data Effect : Type 0 where
  checked : Effect
  wrote : Ledger → Effect
  sent : Delivery → ℕ → Effect

pub data Halt : Type 0 where
  running crashed : Halt
  store_error : Text → Halt

abbrev pub Run : Type 0
Run = Ledger × List Effect × Halt

-- `saveLedgerLocked` sets a version that is not set.
abbrev pub stamp : Ledger → Ledger
stamp l = if l.version == 0 then record l { version = 2 } else l

abbrev pub halt_of : Option Text → Halt
halt_of none = running
halt_of (some x) = store_error x

-- The code drops the error of a mark; a panic is none.
abbrev pub crash_of : Option Error → Halt
crash_of (some panicked) = crashed
crash_of _ = running

abbrev pub channel_missing : DeliveryError
channel_missing = record { kind = Kind.permanent; retry_after = 0 }

abbrev pub delivery_error_of : Option DeliveryError → DeliveryError
delivery_error_of none = record { kind = Kind.retryable; retry_after = 0 }
delivery_error_of (some f) = f

abbrev pub has_channel : List Text → Delivery → Bool
has_channel names d = any (λ n. text_eq n d.channel) names

-- The mark that follows a send. `MarkFailure` reads a nil error only where the channel is there.
unfoldable pub settle_send : Reply → Ledger → Delivery → Ledger × Option Error
settle_send r l d = elim (r.sending) [
  | accepted ↦ mark_delivered l d.event_id d.channel
  | refused f ↦ mark_failure l d.event_id d.channel (delivery_error_of f) r.failed_at
  | refused_nil ↦ elim (channel_state l d.event_id d.channel) [
    | inl _ ↦ (l, some panicked)
    | inr x ↦ (l, some x)
  ]
]

unfoldable pub send_one : Reply → Ledger → Delivery → Run
unfolding settle_send
send_one r l d =
    let (l', e) = settle_send r l d in
    elim (crash_of e) [
      | running ↦ (stamp l', sent d r.before_send ∷ wrote (stamp l') ∷ [], halt_of r.save_after)
      | h ↦ (l', sent d r.before_send ∷ [], h)
    ]

-- From the write of the mark on.
unfoldable pub send_marked : Reply → Ledger → Delivery → Run
unfolding send_one
send_marked r l d = elim (r.save_ahead) [
  | some x ↦ (l, wrote l ∷ [], store_error x)
  | none ↦
      if leb d.message.expires_at r.before_send
      then ((expire l r.expiring_at).0, wrote l ∷ [], running)
      else let (l', es, h) = send_one r l d in (l', wrote l ∷ es, h)
]

-- One round of the loop.
unfoldable pub flush_one : List Text → ℕ → Reply → Ledger → Delivery → Run
unfolding send_marked
flush_one names now r l d =
    if not (has_channel names d)
    then (let (l', e) = mark_failure l d.event_id d.channel channel_missing now in
        (l', [], crash_of e))
    else if not (can_deliver l d.event_id d.channel)
    then (l, [], running)
    else elim (r.check) [
      | some x ↦ (l, checked ∷ [], store_error x)
      | none ↦
          let (l', e) = mark_in_flight l d.event_id d.channel now in
          elim e [
            | some _ ↦ (l', checked ∷ [], running)
            | none ↦ let (l'', es, h) = send_marked r (stamp l') d in (l'', checked ∷ es, h)
          ]
    ]

unfoldable pub flush_loop : List Text → ℕ → (Delivery → Reply) → Ledger → List Delivery → Run
unfolding flush_one
flush_loop names now world l [] = (l, [], running)
flush_loop names now world l (d ∷ ds) =
    let (l', es, h) = flush_one names now (world d) l d in
    let (l'', fs, k) = flush_loop names now world l' ds in
    elim h [ running ↦ (l'', es ++ fs, k) | other ↦ (l', es, other) ]

-- Thirty days.
abbrev pub keep_for : ℕ
keep_for = 30 * 24 * 3600 * 1000000000

-- `flushLocked` and `flushExecutionLocked` from the loop on: `last_save` is what the last write does.
unfoldable pub flush_due : List Text → ℕ → (Delivery → Reply) → Option Text → Ledger → Run
unfolding flush_loop
flush_due names now world last_save l =
    if is_empty l.events
    then (l, [], running)
    else let (l', es, h) = flush_loop names now world l (due l now) in
      elim h [
        | running ↦
            let kept = stamp (prune (expire l' now).0 now keep_for).0 in
            (kept, es ++ (wrote kept ∷ []), halt_of last_save)
        | other ↦ (l', es, other)
      ]

-- `flushLocked` after the guard of the store: where pushing is off, events only expire.
unfoldable pub flush : Bool → List Text → ℕ → (Delivery → Reply) → Option Text → Ledger → Run
unfolding flush_due
flush push_enabled names now world last_save l =
    if is_empty l.events
    then (l, [], running)
    else if push_enabled
    then flush_due names now world last_save l
    else let (l', changed) = expire l now in
      if changed then (stamp l', wrote (stamp l') ∷ [], halt_of last_save) else (l', [], running)

-- What the store reads: nothing, an error of its own, or a ledger.
pub data Stored : Type 0 where
  absent : Stored
  unreadable : Text → Stored
  present : Ledger → Stored

pub data Configured : Type 0 where
  ready : Ledger → Halt → Configured
  unread : Text → Configured
  unsupported : Configured
  invalid : Error → Configured

-- `save` is what the write does, if there is one.
abbrev configure_ledger : Option Text → Ledger → Configured
configure_ledger save l = if not (l.version == 2) then unsupported else elim (validate l) [
  | some x ↦ invalid x
  | none ↦ let (l', changed) = normalize l in ready l' (if changed then halt_of save else running)
]

unfoldable pub configure : Option Text → Stored → Configured
configure save absent = configure_ledger save new_ledger
configure save (unreadable x) = unread x
configure save (present l) = configure_ledger save l
