-- ===== src/Notify/Enqueue/Additions.antt =====
-- What `EnqueuePart` adds.
use job_time_stock_watcher.Base.{
  ◌<◌, ℤ, is_neg, Bool, true, false, not, Option, none, some, List, [], ◌∷◌, Text, Map, ◌≡◌, ◌⊎◌,
  inl, inr, refl, arith, lookup, is_empty, Option-cases, if◌then◌else◌, all, any, insert,
  lookup-insert, text_eq, text_eq_iff, is_some,
}
use job_time_stock_watcher.Notify.{ChannelState, Event, Ledger, Message, Error}
use job_time_stock_watcher.Notify.States.{channel_map, state_at}
use job_time_stock_watcher.Notify.Enqueue.{
  add_channels, fresh_state, enqueue_part, enqueue_existing, enqueue_new, store_part, versioned,
  new_event,
}

-- The state after the loop: the old one, or a fresh one for a channel that is listed.
abbrev pub joined : List Text → Text → Option ChannelState → Option ChannelState
joined cs c (some s) = some s
joined cs c none = if any (λ d. text_eq d c) cs then some fresh_state else none

abbrev pub named : List Text → Bool
named cs = all (λ c. not (is_empty c)) cs

add_channels_joins :
    (cs : List Text) (m : Map ChannelState)
    → named cs ≡ true
    → ((add_channels cs m).1 ≡ none)
      × ((c : Text) → lookup c (add_channels cs m).0 ≡ joined cs c (lookup c m))
unfolding add_channels
add_channels_joins [] m h = (refl, λ c. ground arith)
add_channels_joins (d ∷ cs) m h =
    let m' = if is_some (lookup d m) then m else insert d fresh_state m in
    let ih = add_channels_joins cs m' (ground (arith, h)) in
    (
      ground (arith, h, ih.0),
      λ c. ground (arith, h, ih.1 c, lookup-insert d c fresh_state m, text_eq_iff d c),
    )

-- The requests that `EnqueuePart` accepts.
pub record Acceptable (l : Ledger) (as_of : Text) (message : Message) (channels : List Text)
    (sequence : ℤ) (depends_on : Text) : Type 0 where
  pub current : (l.version ≡ 0) ⊎ (l.version ≡ 2)
  pub supported : (message.version ≡ 1) ⊎ (message.version ≡ 2)
  pub identified : is_empty message.event_id ≡ false
  pub dated : is_empty as_of ≡ false
  pub expiring : 0 < message.expires_at
  pub ordered : is_neg sequence ≡ false
  pub acyclic : text_eq depends_on message.event_id ≡ false
  pub routed : named channels ≡ true
  pub consistent :
      (e : Event)
      → lookup message.event_id l.events ≡ some e
      → (e.as_of ≡ as_of) × (e.message.event_id ≡ message.event_id) × (is_some e.channels ≡ true)

-- The event as it was, or as a new one starts.
abbrev pub base_event : Map Event → Text → Event → Event
base_event m id fresh = elim (lookup id m) [ none ↦ fresh | some e ↦ e ]

-- The call succeeds. Under `id` stands an event with the fields of the old one, or of `fresh`,
-- where each channel in the list has a state, the old one or a fresh one, and every other channel
-- reads as before. Every other event is what it was.
pub record Stores (m : Map Event) (id : Text) (channels : List Text) (fresh : Event)
    (r : Ledger × Option Error) : Type 0 where
  pub succeeds : r.1 ≡ none
  pub event : Event
  pub stored : (j : Text) → lookup j r.0.events ≡ (if text_eq id j then some event else lookup j m)
  pub states : (c : Text) → lookup c (channel_map event) ≡ joined channels c (state_at m id c)
  pub messaged : event.message ≡ (base_event m id fresh).message
  pub expiring : event.expires_at ≡ (base_event m id fresh).expires_at
  pub ordered : event.sequence ≡ (base_event m id fresh).sequence
  pub dependent : event.depends_on ≡ (base_event m id fresh).depends_on
  pub parted : event.part ≡ (base_event m id fresh).part
  pub dated : event.as_of ≡ (base_event m id fresh).as_of

enqueue_new-Stores :
    (l : Ledger) (id : Text) (channels : List Text) (fresh : Event)
    → named channels ≡ true
    → lookup id l.events ≡ none
    → Stores l.events id channels fresh (enqueue_new l id fresh channels)
unfolding enqueue_new
enqueue_new-Stores l id channels fresh h n =
    let (ok, joins) = add_channels_joins channels [] h in
    let e = record fresh { channels = some (add_channels channels []).0 } in
    let done : enqueue_new l id fresh channels
        ≡ (record l { events = insert id e l.events }, none) =
      ground (arith, ok) in
    rw done (record {
      succeeds = refl;
      event = e;
      stored = λ j. lookup-insert id j e l.events;
      states = λ c. unfold lookup in ground (arith, n, joins c);
      messaged = ground (arith, n);
      expiring = ground (arith, n);
      ordered = ground (arith, n);
      dependent = ground (arith, n);
      parted = ground (arith, n);
      dated = ground (arith, n);
    })

enqueue_existing-Stores :
    (l : Ledger) (id : Text) (channels : List Text) (fresh old : Event)
    → named channels ≡ true
    → lookup id l.events ≡ some old
    → is_some old.channels ≡ true
    → Stores l.events id channels fresh (enqueue_existing l id old channels)
unfolding enqueue_existing
enqueue_existing-Stores l id channels fresh old h q k = elim (Option-cases old.channels) [
  | inl n ↦ absurd (ground (arith, n, k))
  | inr (m, r) ↦
      let (ok, joins) = add_channels_joins channels m h in
      let e = record old { channels = some (add_channels channels m).0 } in
      let done : enqueue_existing l id old channels
          ≡ (record l { events = insert id e l.events }, none) =
        ground (arith, ok, r) in
      rw done (record {
        succeeds = refl;
        event = e;
        stored = λ j. lookup-insert id j e l.events;
        states = λ c. ground (arith, q, r, joins c);
        messaged = ground (arith, q);
        expiring = ground (arith, q);
        ordered = ground (arith, q);
        dependent = ground (arith, q);
        parted = ground (arith, q);
        dated = ground (arith, q);
      })
]

-- An acceptable request does what `Stores` says.
pub enqueue_part_adds :
    (l : Ledger) (as_of : Text) (message : Message) (channels : List Text) (part : Text)
    (sequence : ℤ) (depends_on : Text)
    → Acceptable l as_of message channels sequence depends_on
    → Stores l.events message.event_id channels
        (record {
          as_of = as_of;
          expires_at = message.expires_at;
          part = part;
          sequence = sequence;
          depends_on = depends_on;
          message = message;
          channels = some [];
        })
        (enqueue_part l as_of message channels part sequence depends_on)
unfolding enqueue_part store_part
enqueue_part_adds l as_of message channels part sequence depends_on a =
    let fresh = new_event as_of message part sequence depends_on in
    elim (Option-cases (lookup message.event_id l.events)) [
      | inl n ↦
          let step : enqueue_part l as_of message channels part sequence depends_on
              ≡ enqueue_new (versioned l) message.event_id fresh channels =
            ground (arith, n) in
          rw step (enqueue_new-Stores (versioned l) message.event_id channels fresh a.routed n)
      | inr (e, q) ↦
          let (d, i, k) = a.consistent e q in
          let step : enqueue_part l as_of message channels part sequence depends_on
              ≡ enqueue_existing (versioned l) message.event_id e channels =
            ground (
              arith,
              q,
              d,
              i,
              text_eq_iff e.as_of as_of,
              text_eq_iff e.message.event_id message.event_id,
            ) in
          rw step
            (enqueue_existing-Stores (versioned l) message.event_id channels fresh e a.routed q k)
    ]
