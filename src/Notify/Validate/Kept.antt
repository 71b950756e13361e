-- ===== src/Notify/Validate/Kept.antt =====
-- Which methods keep a ledger valid, so that the next start accepts what was saved.
use mathlib.Core.Option
use job_time_stock_watcher.Base.{
  ℕ, ◌<◌, ℤ, pos, negsuc, inc, max_int, leb, is_neg, Bool, true, false, none, some, [], Text, ◌≡◌,
  ◌≢◌, ◌⊎◌, inl, inr, refl, arith, lookup, map_values, lookup-map_values, is_empty, Option-cases,
  insert, In-lookup, lookup-In, All-In,
}
use job_time_stock_watcher.Notify.{Status, ChannelState, Event, Ledger, DeliveryError}
use job_time_stock_watcher.Notify.States.{
  channel_map, is_terminal, state_at, IsLedger, lookup-map_channels,
}
use job_time_stock_watcher.Notify.Validate.{is_known, check_dependency, check_event, validate}
use job_time_stock_watcher.Notify.Validate.Carried.{
  validate-map_values, validate-insert, check_events→Checked,
}
use job_time_stock_watcher.Notify.Validate.Gentle.{
  recover_event-Carries, expire_event-Carries, retry_event-Carries, insert-Carries,
  not_all_terminal,
}
use job_time_stock_watcher.Notify.Upkeep.{
  normalize, recover_event, expire, expire_event, retry, retry_event, retry_state,
}
use job_time_stock_watcher.Notify.Marks.Locality.{channel_state-some}
use job_time_stock_watcher.Notify.Marks.{
  change_state, put_state, channel_state, fail_state, mark_in_flight, mark_delivered, mark_unknown,
  mark_failure, backoff,
}

-- `Normalize` and `Expire` keep a valid ledger valid.
pub upkeep_keeps_valid :
    (l : Ledger) (now : ℕ)
    → validate l ≡ none
    → (validate (normalize l).0 ≡ none) × (validate (expire l now).0 ≡ none)
unfolding normalize expire
upkeep_keeps_valid l now h = (
  validate-map_values (λ id e. recover_event e) l (λ id e p. recover_event-Carries l.events e) h,
  validate-map_values (λ id e. expire_event now e) l (λ id e p. expire_event-Carries now l.events e)
      h,
)

-- `Retry` keeps a valid ledger valid if every dependency that an event names is stored.
pub retry_keeps_valid :
    (l : Ledger) (channel : Text) (now : ℕ)
    → IsLedger l
    → ((id : Text) (e : Event)
        → lookup id l.events ≡ some e
        → is_empty e.depends_on ≡ false
        → lookup e.depends_on l.events ≢ none)
    → validate l ≡ none
    → validate (retry l channel now).0 ≡ none
unfolding retry
retry_keeps_valid l channel now wf stored h =
    validate-map_values (λ id e. retry_event channel now e) l
      (λ id e p.
        retry_event-Carries channel now l.events e
          (stored id e (In-lookup id e l.events wf.events_map p)))
      h

-- A valid ledger may hold an event whose dependency was pruned, while all its channels are closed.
-- If one of them is blocked and the event has not expired, `Retry` of every channel leaves a ledger
-- that `Validate` refuses.
pub retry_breaks_valid :
    (l : Ledger) (now : ℕ) (id ch : Text) (e : Event) (s : ChannelState)
    → lookup id l.events ≡ some e
    → lookup ch (channel_map e) ≡ some s
    → s.status ≡ Status.blocked
    → now < e.expires_at
    → is_empty e.depends_on ≡ false
    → lookup e.depends_on l.events ≡ none
    → validate (retry l [] now).0 ≢ none
unfolding retry validate check_event check_dependency
retry_breaks_valid l now id ch e s q c b live d n h =
    let m' = map_values (λ i f. retry_event [] now f) l.events in
    let found : lookup id m' ≡ some (retry_event [] now e) =
      ground (arith, q, lookup-map_values (λ i f. retry_event [] now f) id l.events) in
    let absent : lookup e.depends_on m' ≡ none =
      ground (arith, n, lookup-map_values (λ i f. retry_event [] now f) e.depends_on l.events) in
    let own =
      All-In (λ (p : Text × Event). check_event m' p.0 p.1 ≡ none) (id, retry_event [] now e) m'
        (check_events→Checked m' m' (ground (arith, h)))
        (lookup-In id (retry_event [] now e) m' found) in
    let opened : lookup ch (channel_map (retry_event [] now e)) ≡ some (retry_state [] ch s) =
      ground (arith, c, live, lookup-map_channels (retry_state []) e ch) in
    let pending : is_terminal (retry_state [] ch s).status ≡ false =
      unfold retry_state in ground (arith, b) in
    let open_event =
      not_all_terminal ch (retry_state [] ch s) (channel_map (retry_event [] now e)) opened
        pending in
    ground (arith, own, absent, d, live, open_event)

-- The channel is open, or the dependency of its event is there.
abbrev pub IsLoose : Ledger → Text → ChannelState → Type 0
IsLoose l id s =
    (is_terminal s.status ≡ false)
    ⊎ ((e : Event) × (lookup id l.events ≡ some e)
        × ((is_empty e.depends_on ≡ true)
            ⊎ ((d : Event) × (lookup e.depends_on l.events ≡ some d))))

loose_open :
    (l : Ledger) (id : Text) (s : ChannelState) (e : Event)
    → lookup id l.events ≡ some e
    → IsLoose l id s
    → is_empty e.depends_on ≡ false
    → lookup e.depends_on l.events ≡ none
    → is_terminal s.status ≡ false
loose_open l id s e q (inl o) d n = o
loose_open l id s e q (inr (f, p, inl m)) d n =
    let same : e ≡ f = ground (arith, q, p) in ground (arith, same, m, d)
loose_open l id s e q (inr (f, p, inr (g, m))) d n =
    let same : e ≡ f = ground (arith, q, p) in ground (arith, same, m, n)

pub put_state_keeps :
    (l : Ledger) (id ch : Text) (s s' : ChannelState)
    → state_at l.events id ch ≡ some s
    → IsLoose l id s
    → (is_neg s.attempts ≡ false → is_neg s'.attempts ≡ false)
    → is_known s'.status ≡ true
    → validate l ≡ none
    → validate (put_state l id ch s') ≡ none
put_state_keeps l id ch s s' at loose k w h = elim (Option-cases (lookup id l.events)) [
  | inl n ↦ ground (arith, n, at)
  | inr (e, q) ↦
      let at' : lookup ch (channel_map e) ≡ some s = ground (arith, q, at) in
      let put : put_state l id ch s' ≡ record l {
        events = insert id (record e { channels = Option.map (insert ch s') e.channels }) l.events;
      } =
        ground (arith, q) in
      rw put (
        validate-insert l id e (record e { channels = Option.map (insert ch s') e.channels }) q
          (insert-Carries l.events e ch s s' at' (loose_open l id s e q loose) k w) h)
]

change_state_keeps :
    (f : ChannelState → ChannelState) (l : Ledger) (id ch : Text) (s : ChannelState)
    → state_at l.events id ch ≡ some s
    → IsLoose l id s
    → ((f s).attempts ≡ s.attempts)
    → is_known (f s).status ≡ true
    → validate l ≡ none
    → validate (change_state f l id ch).0 ≡ none
change_state_keeps f l id ch s at loose k w h =
    let read : channel_state l id ch ≡ inl s = channel_state-some l id ch s at in
    let done : (change_state f l id ch).0 ≡ put_state l id ch (f s) = ground (arith, read) in
    rw done (put_state_keeps l id ch s (f s) at loose (ground (arith, k)) w h)

-- The largest `int`, and every value above it.
abbrev pub is_max : ℤ → Bool
is_max (pos n) = leb max_int n
is_max (negsuc n) = false

inc_neg : (a : ℤ) → is_max a ≡ false → is_neg a ≡ false → is_neg (inc a) ≡ false
inc_neg (pos n) room h = ground (arith, room)
inc_neg (negsuc n) room h = cc

pub fail_state_sound :
    (failure : DeliveryError) (now : ℕ) (s s' : ChannelState)
    → is_max s.attempts ≡ false
    → fail_state failure now s ≡ some s'
    → (is_neg s.attempts ≡ false → is_neg s'.attempts ≡ false) × (is_known s'.status ≡ true)
unfolding fail_state
fail_state_sound failure now s s' room h = elim (Option-cases (backoff (inc s.attempts))) [
  | inl n ↦ ground (arith, h, n, inc_neg s.attempts room)
  | inr (d, q) ↦ ground (arith, h, q, inc_neg s.attempts room)
]

-- A mark keeps a valid ledger valid if its channel's attempt count is not the largest `int`, and its
-- channel is neither delivered, blocked nor expired, or the dependency of its event, if it has one, is
-- stored.
pub marks_keep_valid :
    (l : Ledger) (id ch : Text) (now : ℕ) (failure : DeliveryError) (s : ChannelState)
    → state_at l.events id ch ≡ some s
    → is_max s.attempts ≡ false
    → IsLoose l id s
    → validate l ≡ none
    → (validate (mark_in_flight l id ch now).0 ≡ none)
      × (validate (mark_delivered l id ch).0 ≡ none)
      × (validate (mark_unknown l id ch).0 ≡ none)
      × (validate (mark_failure l id ch failure now).0 ≡ none)
unfolding mark_in_flight mark_delivered mark_unknown mark_failure
marks_keep_valid l id ch now failure s at room loose h = (
  change_state_keeps _ l id ch s at loose refl refl h,
  change_state_keeps _ l id ch s at loose refl refl h,
  change_state_keeps _ l id ch s at loose refl refl h,
  failed (Option-cases (fail_state failure now s)),
)
  where
    read : channel_state l id ch ≡ inl s
    read = channel_state-some l id ch s at

    failed :
        (fail_state failure now s ≡ none)
          ⊎ ((s' : ChannelState) × (fail_state failure now s ≡ some s'))
        → validate (mark_failure l id ch failure now).0 ≡ none
    failed (inl n) =
        let same : (mark_failure l id ch failure now).0 ≡ l = ground (arith, read, n) in rw same h
    failed (inr (s', q)) =
        let (k, w) = fail_state_sound failure now s s' room q in
        let put : (mark_failure l id ch failure now).0 ≡ put_state l id ch s' =
          ground (arith, read, q) in
        rw put (put_state_keeps l id ch s s' at loose k w h)
