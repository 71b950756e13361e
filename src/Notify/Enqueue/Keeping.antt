-- ===== src/Notify/Enqueue/Keeping.antt =====
-- `EnqueuePart` keeps every state that is there.
use job_time_stock_watcher.Base.{
  ℤ, none, some, List, [], ◌∷◌, Text, Map, ◌≡◌, inl, inr, arith, lookup, Option-cases,
  if◌then◌else◌, insert, lookup-insert, text_eq_iff, is_some,
}
use job_time_stock_watcher.Notify.{ChannelState, Event, Ledger, Message}
use job_time_stock_watcher.Notify.States.{channel_map, state_at}
use job_time_stock_watcher.Notify.Enqueue.{
  add_channels, fresh_state, enqueue_part, enqueue_existing, enqueue_new, store_part, versioned,
  new_event,
}

-- A channel that has a state keeps it, also where the loop stops with an error.
add_channels_keeps :
    (cs : List Text) (m : Map ChannelState) (c : Text) (s : ChannelState)
    → lookup c m ≡ some s
    → lookup c (add_channels cs m).0 ≡ some s
unfolding add_channels
add_channels_keeps [] m c s h = h
add_channels_keeps (d ∷ cs) m c s h = ground (
  arith,
  h,
  add_channels_keeps cs (if is_some (lookup d m) then m else insert d fresh_state m) c s,
  lookup-insert d c fresh_state m,
  text_eq_iff d c,
)

insert_keeps :
    (l : Ledger) (id j c : Text) (e e' : Event) (s : ChannelState)
    → lookup id l.events ≡ some e
    → ((s : ChannelState) → lookup c (channel_map e) ≡ some s → lookup c (channel_map e') ≡ some s)
    → state_at l.events j c ≡ some s
    → state_at (insert id e' l.events) j c ≡ some s
insert_keeps l id j c e e' s q k h =
    ground (arith, h, q, k s, lookup-insert id j e' l.events, text_eq_iff id j)

enqueue_existing_keeps :
    (l : Ledger) (id : Text) (e : Event) (channels : List Text) (j c : Text) (s : ChannelState)
    → lookup id l.events ≡ some e
    → state_at l.events j c ≡ some s
    → state_at (enqueue_existing l id e channels).0.events j c ≡ some s
unfolding enqueue_existing
enqueue_existing_keeps l id e [] j c s q h = elim (Option-cases e.channels) [
  | inl n ↦ ground (arith, n, h)
  | inr (m, r) ↦
      let e' = record e { channels = some (add_channels [] m).0 } in
      ground (
        arith,
        r,
        insert_keeps l id j c e e' s q (λ t k. ground (arith, r, k, add_channels_keeps [] m c t)) h,
      )
]
enqueue_existing_keeps l id e (d ∷ cs) j c s q h = elim (Option-cases e.channels) [
  | inl n ↦ ground (arith, n, h)
  | inr (m, r) ↦
      let e' = record e { channels = some (add_channels (d ∷ cs) m).0 } in
      ground (
        arith,
        r,
        insert_keeps l id j c e e' s q
            (λ t k. ground (arith, r, k, add_channels_keeps (d ∷ cs) m c t)) h,
      )
]

enqueue_new_keeps :
    (l : Ledger) (id : Text) (e : Event) (channels : List Text) (j c : Text) (s : ChannelState)
    → lookup id l.events ≡ none
    → state_at l.events j c ≡ some s
    → state_at (enqueue_new l id e channels).0.events j c ≡ some s
unfolding enqueue_new
enqueue_new_keeps l id e channels j c s q h =
    let e' = record e { channels = some (add_channels channels []).0 } in
    ground (arith, h, q, lookup-insert id j e' l.events, text_eq_iff id j)

store_part_keeps :
    (l : Ledger) (as_of : Text) (message : Message) (channels : List Text) (fresh : Event)
    (j c : Text) (s : ChannelState)
    → state_at l.events j c ≡ some s
    → state_at (store_part l as_of message channels fresh).0.events j c ≡ some s
unfolding store_part
store_part_keeps l as_of message channels fresh j c s h =
    elim (Option-cases (lookup message.event_id l.events)) [
      | inl n ↦ ground (arith, n, h, enqueue_new_keeps l message.event_id fresh channels j c s)
      | inr (e, q) ↦
          ground (arith, q, h, enqueue_existing_keeps l message.event_id e channels j c s)
    ]

-- Whatever the arguments, and on every error, `EnqueuePart` keeps the state of every channel that
-- has one.
pub enqueue_part_keeps :
    (l : Ledger) (as_of : Text) (message : Message) (channels : List Text) (part : Text)
    (sequence : ℤ) (depends_on j c : Text) (s : ChannelState)
    → state_at l.events j c ≡ some s
    → state_at (enqueue_part l as_of message channels part sequence depends_on).0.events j c
      ≡ some s
unfolding enqueue_part
enqueue_part_keeps l as_of message channels part sequence depends_on j c s h = ground (
  arith,
  h,
  store_part_keeps (versioned l) as_of message channels
      (new_event as_of message part sequence depends_on) j c s,
)
