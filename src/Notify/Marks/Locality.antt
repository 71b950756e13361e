-- ===== src/Notify/Marks/Locality.antt =====
-- A mark changes the state of one channel of one event, and nothing else.
use mathlib.Core.Option
use job_time_stock_watcher.Base.{
  ℕ, pos, max_int, ◌<◌, true, ◌&&◌, Option, none, some, Text, ◌≡◌, inl, inr, refl, arith, text_eq,
  text_eq_iff, lookup, insert, lookup-insert, if◌then◌else◌, Option-cases,
}
use job_time_stock_watcher.Notify.{
  Kind, Status, ChannelState, Event, Ledger, DeliveryError, Error, event_not_found,
  channel_not_found,
}
use job_time_stock_watcher.Notify.States.{channel_map, state_at}
use job_time_stock_watcher.Notify.Marks.Backoff.{Failed, fail_state-Failed}
use job_time_stock_watcher.Notify.Marks.{
  channel_state, put_state, change_state, mark_in_flight, mark_delivered, mark_unknown,
  mark_failure,
}

-- The channel map of an event after a write to a channel that it has.
channel_map-insert :
    (e : Event) (ch c : Text) (s s0 : ChannelState)
    → lookup ch (channel_map e) ≡ some s0
    → lookup c (channel_map (record e { channels = Option.map (insert ch s) e.channels }))
      ≡ (if text_eq ch c then some s else lookup c (channel_map e))
unfolding lookup
channel_map-insert e ch c s s0 h = elim (Option-cases e.channels) [
  | inl n ↦ ground (arith, n, h)
  | inr (m, q) ↦ ground (arith, q, lookup-insert ch c s m)
]

-- After a write of `s`, only the channel `ch` of the event `id` reads another state than before.
pub put_state_at :
    (l : Ledger) (id ch j c : Text) (s s0 : ChannelState)
    → state_at l.events id ch ≡ some s0
    → state_at (put_state l id ch s).events j c
      ≡ (if text_eq id j && text_eq ch c then some s else state_at l.events j c)
put_state_at l id ch j c s s0 h = elim (Option-cases (lookup id l.events)) [
  | inl n ↦ ground (arith, n, h)
  | inr (e, q) ↦ ground (
    arith,
    q,
    lookup-insert id j (record e { channels = Option.map (insert ch s) e.channels }) l.events,
    channel_map-insert e ch c s s0,
    text_eq_iff id j,
  )
]

pub channel_state-some :
    (l : Ledger) (id ch : Text) (s : ChannelState)
    → state_at l.events id ch ≡ some s
    → channel_state l id ch ≡ inl s
channel_state-some l id ch s h = elim (Option-cases (lookup id l.events)) [
  | inl n ↦ ground (arith, n, h)
  | inr (e, q) ↦ ground (arith, q, h)
]

-- The call succeeds, `s` is the new state of the channel `ch` of the event `id`, and every other
-- channel of every event reads as before.
abbrev pub Sets : Ledger → Text → Text → ChannelState → Ledger × Option Error → Type 0
Sets l id ch s r =
    (r.1 ≡ none)
    × ((j c : Text)
        → state_at r.0.events j c
          ≡ (if text_eq id j && text_eq ch c then some s else state_at l.events j c))

change_state-Sets :
    (f : ChannelState → ChannelState) (l : Ledger) (id ch : Text) (s : ChannelState)
    → state_at l.events id ch ≡ some s
    → Sets l id ch (f s) (change_state f l id ch)
change_state-Sets f l id ch s h =
    let done : change_state f l id ch ≡ (put_state l id ch (f s), none) =
      ground (arith, channel_state-some l id ch s h) in
    rw done (refl, λ j c. put_state_at l id ch j c (f s) s h)

module _ (l : Ledger) (id ch : Text) (s : ChannelState)
    (at : state_at l.events id ch ≡ some s) where
  -- On a channel that the ledger has, with an attempt count that is not negative and below the largest
  -- `int`, each mark succeeds and sets that channel's state alone: in flight since `now`; delivered,
  -- with no retry time; unknown and possibly duplicate; or, after a failure, blocked or pending with
  -- one more attempt, as `Failed` says.
  pub marks-Sets :
      (now : ℕ) (failure : DeliveryError) (n : ℕ)
      → s.attempts ≡ pos n
      → n < max_int
      → Sets l id ch
          (record s { status = Status.in_flight; in_flight_at = now })
          (mark_in_flight l id ch now)
        × Sets l id ch
            (record s {
              status = Status.delivered;
              kind = Kind.unset;
              next_attempt = 0;
              in_flight_at = 0;
            })
            (mark_delivered l id ch)
        × Sets l id ch
            (record s {
              status = Status.unknowned;
              kind = Kind.unknown;
              in_flight_at = 0;
              possibly_duplicate = true;
            })
            (mark_unknown l id ch)
        × ((s' : ChannelState) × Failed failure now n s s'
            × Sets l id ch s' (mark_failure l id ch failure now))
  unfolding mark_in_flight mark_delivered mark_unknown mark_failure
  marks-Sets now failure n counted room = (
    change_state-Sets _ l id ch s at,
    change_state-Sets _ l id ch s at,
    change_state-Sets _ l id ch s at,
    let (s', h, failed) = fail_state-Failed failure now n s counted room in
        let done : mark_failure l id ch failure now ≡ (put_state l id ch s', none) =
          ground (arith, channel_state-some l id ch s at, h) in
        (s', failed, rw done (refl, λ j c. put_state_at l id ch j c s' s at)),
  )

-- On an event or a channel that the ledger does not have, each mark says which is missing and
-- leaves the ledger as it was.
pub marks_missing :
    (l : Ledger) (id ch : Text) (now : ℕ) (failure : DeliveryError)
    → state_at l.events id ch ≡ none
    → let r : Ledger × Option Error = (
      l,
      some (elim (lookup id l.events) [ none ↦ event_not_found | some _ ↦ channel_not_found ]),
    ) in
      (mark_in_flight l id ch now ≡ r)
      × (mark_delivered l id ch ≡ r)
      × (mark_unknown l id ch ≡ r)
      × (mark_failure l id ch failure now ≡ r)
unfolding mark_in_flight mark_delivered mark_unknown mark_failure
marks_missing l id ch now failure h = (
  ground (arith, missing),
  ground (arith, missing),
  ground (arith, missing),
  ground (arith, missing),
)
  where
    missing :
        channel_state l id ch
        ≡ inr (elim (lookup id l.events) [ none ↦ event_not_found | some _ ↦ channel_not_found ])
    missing = ground (arith, h)
