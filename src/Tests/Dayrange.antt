-- ===== src/Tests/Dayrange.antt =====
-- A flush of a ledger with one card to send.
use job_time_stock_watcher.Base.{
  ℕ, length, true, List, [], ◌∷◌, ◌++◌, Option, none, some, Text, codes, text_eq, lookup, insert,
  sort_by, ◌≡◌, ◌↔◌, refl, sym, subst, arith,
}
use job_time_stock_watcher.Notify.{Status, Delivery}
use job_time_stock_watcher.Notify.Schedule.{due, can_deliver}
use job_time_stock_watcher.Notify.Marks.{mark_in_flight, mark_delivered}
use job_time_stock_watcher.Notify.Upkeep.{expire, prune}
use job_time_stock_watcher.Dayrange.Delivery.{
  Sending, accepted, Reply, Effect, checked, wrote, sent, store_error, flush, has_channel,
}
use job_time_stock_watcher.Dayrange.Delivery.Room.{HasRoom}
use job_time_stock_watcher.Dayrange.Delivery.Safety.{IsSafeRun}
use job_time_stock_watcher.Dayrange.Delivery.Routes.{
  notice_names, execution_names, flush_locked, flush_execution_locked,
}
use job_time_stock_watcher.Dayrange.Delivery.Routes.Configured.{IsRouted, flush_locked-IsSafeRun}
use job_time_stock_watcher.Tests.Notify.{chat, ledger, ledger_valid, pending-IsLedger}

abbrev reply : Sending → Reply
reply sending = record {
  check = none;
  save_ahead = none;
  before_send = 60;
  expiring_at = 60;
  sending = sending;
  failed_at = 61;
  save_after = none;
}

-- The kinds of the effects: 0 for a check, 1 for a write, 2 for a send.
abbrev kinds : List Effect → List ℕ
kinds [] = []
kinds (checked ∷ es) = 0 ∷ kinds es
kinds (wrote _ ∷ es) = 1 ∷ kinds es
kinds (sent _ _ ∷ es) = 2 ∷ kinds es

sends_once :
    kinds
      (flush true
        (chat ∷ [])
        50
        (λ d. reply accepted)
        none
        (ledger Status.delivered Status.pending)).1
    ≡ 0 ∷ 1 ∷ 2 ∷ 1 ∷ 1 ∷ []
unfolding flush due can_deliver mark_in_flight mark_delivered expire prune lookup insert text_eq
    sort_by
sends_once = refl

-- A send comes too late if the card expired during the write.
late_is_not_sent :
    kinds
      (flush true
        (chat ∷ [])
        50
        (λ d. record (reply accepted) { before_send = 200 })
        none
        (ledger Status.delivered Status.pending)).1
    ≡ 0 ∷ 1 ∷ 1 ∷ []
unfolding flush due can_deliver mark_in_flight expire prune lookup insert text_eq sort_by
late_is_not_sent = refl

unsaved_is_not_sent :
    (flush true
      (chat ∷ [])
      50
      (λ d. record (reply accepted) { save_ahead = some (codes "disk") })
      none
      (ledger Status.delivered Status.pending)).2
    ≡ store_error (codes "disk")
unfolding flush due can_deliver mark_in_flight lookup insert text_eq sort_by
unsaved_is_not_sent = refl

-- The second channel is nil.
abbrev channels : List (Option Text)
channels = some chat ∷ none ∷ []

one_channel : notice_names channels (chat ∷ codes "mail" ∷ []) [] ≡ chat ∷ []
unfolding notice_names text_eq sort_by
one_channel = refl

due_once : length (due (ledger Status.delivered Status.pending) 50) ≡ 1
unfolding due lookup text_eq sort_by
due_once = refl

room_for_one : HasRoom 1 (ledger Status.delivered Status.pending)
room_for_one = (((omega arith), tt), (((omega arith), tt), tt))

flush_locked-IsSafeRun_example :
    let l = ledger Status.delivered Status.pending in
    let routed = chat ∷ codes "mail" ∷ [] in
    IsSafeRun
      (notice_names channels routed [])
      (flush_locked true true channels routed [] 50 (λ d. reply accepted) none l)
    × ((d : Delivery)
        → (has_channel (notice_names channels routed []) d ≡ true)
          ↔ IsRouted channels (routed ++ []) d)
    × IsSafeRun
        (execution_names channels routed)
        (flush_execution_locked true channels routed 50 (λ d. reply accepted) none l)
    × ((d : Delivery)
        → (has_channel (execution_names channels routed) d ≡ true) ↔ IsRouted channels routed d)
flush_locked-IsSafeRun_example =
    flush_locked-IsSafeRun true true channels (chat ∷ codes "mail" ∷ []) []
      (chat ∷ codes "mail" ∷ []) 50 (λ d. reply accepted) none
      (ledger Status.delivered Status.pending) (λ d. refl) pending-IsLedger ledger_valid
      (subst (λ n. HasRoom n (ledger Status.delivered Status.pending)) (sym due_once) room_for_one)
