-- ===== src/Tests/Notify.antt =====
-- Ledgers of two events, the second of which depends on the first.
use job_time_stock_watcher.Base.{
  max_int, ℕ, ◌⊎◌, ℤ, pos, true, false, none, some, [], ◌∷◌, Text, codes, ◌≡◌, ◌≢◌, ◌↔◌, refl,
  arith, lookup, insert, text_eq, In, sort_by, valid_date, inl, inr,
}
use job_time_stock_watcher.Notify.{
  Kind, Status, Message, DeliveryError, ChannelState, Event, Ledger, Delivery, channel_required,
}
use job_time_stock_watcher.Notify.States.{state_at, IsLedger}
use job_time_stock_watcher.Notify.Enqueue.{enqueue_part, fresh_state, add_channels}
use job_time_stock_watcher.Notify.Enqueue.Additions.{Acceptable, Stores, enqueue_part_adds}
use job_time_stock_watcher.Notify.Enqueue.Keeping.{enqueue_part_keeps}
use job_time_stock_watcher.Notify.Upkeep.{normalize, expire, prune, retry}
use job_time_stock_watcher.Notify.Upkeep.Retrying.{retry_unblocks}
use job_time_stock_watcher.Notify.Upkeep.Pruning.{CanRemove, prune_removes}
use job_time_stock_watcher.Notify.Marks.{
  fail_state, mark_failure, mark_in_flight, mark_delivered, mark_unknown,
}
use job_time_stock_watcher.Notify.Marks.Locality.{Sets, marks-Sets}
use job_time_stock_watcher.Notify.Marks.Backoff.{Failed, fail_state-Failed}
use job_time_stock_watcher.Notify.Schedule.{due, can_deliver}
use job_time_stock_watcher.Notify.Schedule.Selection.{IsDue, due_iff}
use job_time_stock_watcher.Notify.Validate.{validate}
use job_time_stock_watcher.Notify.Validate.Kept.{
  upkeep_keeps_valid, retry_breaks_valid, marks_keep_valid,
}
use job_time_stock_watcher.Notify.Validate.Pruned.{prune_keeps_valid}

abbrev pub as_of : Text
as_of = codes "2026-11-25"

abbrev pub chat : Text
chat = codes "chat"

abbrev pub card : Text
card = codes "card"

abbrev pub list : Text
list = codes "list"

abbrev pub message : Text → ℕ → Message
message id at = record { version = 2; event_id = id; expires_at = at; content = [] }

abbrev pub state : Status → ChannelState
state st = record fresh_state { status = st; attempts = pos 1 }

abbrev pub event : Text → ℕ → ℤ → Text → Status → Event
event id at sequence depends_on st = record {
  as_of = as_of;
  expires_at = at;
  part = [];
  sequence = sequence;
  depends_on = depends_on;
  message = message id at;
  channels = some ((chat, state st) ∷ []);
}

-- `card` waits for `list`, which is `st`.
abbrev pub ledger : Status → Status → Ledger
ledger st st' = record {
  version = 2;
  events = (list, event list 100 (pos 0) [] st) ∷ (card, event card 200 (pos 1) list st') ∷ [];
}

pub ledger_valid : validate (ledger Status.delivered Status.pending) ≡ none
unfolding validate lookup valid_date text_eq
ledger_valid = refl

ledger-IsLedger : IsLedger (ledger Status.delivered Status.delivered)
unfolding lookup text_eq
ledger-IsLedger = record {
  events_map = (refl, (refl, tt));
  channel_maps = ((refl, tt), ((refl, tt), tt));
}

due_both :
    due (ledger Status.pending Status.unknowned) 50
    ≡ record { event_id = list; channel = chat; message = message list 100 }
      ∷ record { event_id = card; channel = chat; message = message card 200 }
      ∷ []
unfolding due sort_by text_eq
due_both = refl

deliver_in_order :
    (can_deliver (ledger Status.pending Status.pending) card chat ≡ false)
    × (can_deliver (ledger Status.delivered Status.pending) card chat ≡ true)
unfolding can_deliver lookup text_eq
deliver_in_order = (refl, refl)

pub pending-IsLedger : IsLedger (ledger Status.delivered Status.pending)
unfolding lookup text_eq
pending-IsLedger = record {
  events_map = (refl, (refl, tt));
  channel_maps = ((refl, tt), ((refl, tt), tt));
}

abbrev pub card_delivery : Delivery
card_delivery = record { event_id = card; channel = chat; message = message card 200 }

due_iff_example :
    (In card_delivery (due (ledger Status.delivered Status.pending) 50))
    ↔ IsDue (ledger Status.delivered Status.pending) 50 card_delivery
due_iff_example = due_iff (ledger Status.delivered Status.pending) 50 card_delivery pending-IsLedger

retry_unblocks_example :
    state_at (retry (ledger Status.delivered Status.blocked) [] 150).0.events card chat
    ≡ some (state Status.pending)
unfolding lookup text_eq
retry_unblocks_example =
    retry_unblocks (ledger Status.delivered Status.blocked) [] 150 card chat
      (event card 200 (pos 1) list Status.blocked) (state Status.blocked) refl refl

prune_removes_example :
    let l = ledger Status.delivered Status.delivered in
    ((lookup list (prune l 150 30).0.events ≡ none)
      ↔ CanRemove l 150 30 list (event list 100 (pos 0) [] Status.delivered))
    × ((lookup list (prune l 150 30).0.events ≡ none)
        ⊎ (lookup list (prune l 150 30).0.events
            ≡ some (event list 100 (pos 0) [] Status.delivered)))
unfolding lookup text_eq
prune_removes_example =
    prune_removes (ledger Status.delivered Status.delivered) 150 30 list
      (event list 100 (pos 0) [] Status.delivered) ledger-IsLedger refl

prune_keeps_valid_example :
    validate (prune (ledger Status.delivered Status.pending) 150 30).0 ≡ none
prune_keeps_valid_example =
    prune_keeps_valid (ledger Status.delivered Status.pending) 150 30 pending-IsLedger ledger_valid

upkeep_keeps_valid_example :
    (validate (normalize (ledger Status.delivered Status.pending)).0 ≡ none)
    × (validate (expire (ledger Status.delivered Status.pending) 150).0 ≡ none)
upkeep_keeps_valid_example =
    upkeep_keeps_valid (ledger Status.delivered Status.pending) 150 ledger_valid

abbrev transient : DeliveryError
transient = record { kind = Kind.retryable; retry_after = 0 }

marks_keep_valid_example :
    let l = ledger Status.delivered Status.pending in
    (validate (mark_in_flight l card chat 50).0 ≡ none)
    × (validate (mark_delivered l card chat).0 ≡ none)
    × (validate (mark_unknown l card chat).0 ≡ none)
    × (validate (mark_failure l card chat transient 50).0 ≡ none)
unfolding lookup text_eq
marks_keep_valid_example =
    marks_keep_valid (ledger Status.delivered Status.pending) card chat 50 transient
      (state Status.pending) refl refl (inl refl) ledger_valid

-- The count wraps around, and the shift by a negative count panics.
largest_count_panics :
    fail_state transient 50 (record (state Status.in_flight) { attempts = pos max_int }) ≡ none
unfolding fail_state
largest_count_panics = refl

fail_state-Failed_example :
    (s' : ChannelState) × (fail_state transient 50 (state Status.in_flight) ≡ some s')
    × Failed transient 50 1 (state Status.in_flight) s'
fail_state-Failed_example =
    fail_state-Failed transient 50 1 (state Status.in_flight) refl (omega arith)

marks-Sets_example :
    let l = ledger Status.delivered Status.pending in
    let s = state Status.pending in
    Sets l card chat
      (record s { status = Status.in_flight; in_flight_at = 50 })
      (mark_in_flight l card chat 50)
    × Sets l card chat
        (record s {
          status = Status.delivered;
          kind = Kind.unset;
          next_attempt = 0;
          in_flight_at = 0;
        })
        (mark_delivered l card chat)
    × Sets l card chat
        (record s {
          status = Status.unknowned;
          kind = Kind.unknown;
          in_flight_at = 0;
          possibly_duplicate = true;
        })
        (mark_unknown l card chat)
    × ((s' : ChannelState) × Failed transient 50 1 s s'
        × Sets l card chat s' (mark_failure l card chat transient 50))
unfolding lookup text_eq
marks-Sets_example =
    marks-Sets (ledger Status.delivered Status.pending) card chat (state Status.pending) refl 50
      transient 1 refl (omega arith)

-- The dependency of `card` was pruned.
abbrev orphaned : Ledger
orphaned = record { version = 2; events = (card, event card 200 (pos 1) list Status.blocked) ∷ [] }

orphaned_valid : validate orphaned ≡ none
unfolding validate lookup valid_date text_eq
orphaned_valid = refl

retry_breaks_valid_example : validate (retry orphaned [] 150).0 ≢ none
unfolding lookup text_eq
retry_breaks_valid_example =
    retry_breaks_valid orphaned 150 card chat (event card 200 (pos 1) list Status.blocked)
      (state Status.blocked) refl refl refl (omega arith) refl refl

request :
    Acceptable
      (ledger Status.delivered Status.pending)
      as_of
      (message card 200)
      (chat ∷ codes "mail" ∷ [])
      (pos 1)
      list
unfolding lookup text_eq
request = record {
  current = inr refl;
  supported = inr refl;
  identified = refl;
  dated = refl;
  expiring = omega arith;
  ordered = refl;
  acyclic = refl;
  routed = refl;
  consistent = λ e h. ground (arith, h);
}

enqueue_part_adds_example :
    Stores
      (ledger Status.delivered Status.pending).events
      card
      (chat ∷ codes "mail" ∷ [])
      (record {
        as_of = as_of;
        expires_at = 200;
        part = [];
        sequence = pos 1;
        depends_on = list;
        message = message card 200;
        channels = some [];
      })
      (enqueue_part
        (ledger Status.delivered Status.pending)
        as_of
        (message card 200)
        (chat ∷ codes "mail" ∷ [])
        []
        (pos 1)
        list)
enqueue_part_adds_example =
    enqueue_part_adds (ledger Status.delivered Status.pending) as_of (message card 200)
      (chat ∷ codes "mail" ∷ []) [] (pos 1) list request

-- A refused call that has added a channel before it met the empty name.
enqueue_part_keeps_example :
    state_at
      (enqueue_part
        (ledger Status.delivered Status.pending)
        as_of
        (message card 200)
        (codes "mail" ∷ [] ∷ [])
        []
        (pos 1)
        list).0.events
      card
      chat
    ≡ some (state Status.pending)
unfolding lookup text_eq
enqueue_part_keeps_example =
    enqueue_part_keeps (ledger Status.delivered Status.pending) as_of (message card 200)
      (codes "mail" ∷ [] ∷ []) [] (pos 1) list card chat (state Status.pending) refl

refused_after_adding :
    let r =
      enqueue_part
        (ledger Status.delivered Status.pending)
        as_of
        (message card 200)
        (codes "mail" ∷ [] ∷ [])
        []
        (pos 1)
        list in
    (r.1 ≡ some channel_required) × (state_at r.0.events card (codes "mail") ≡ some fresh_state)
unfolding enqueue_part lookup insert text_eq add_channels
refused_after_adding = (refl, refl)
