-- ===== src/Dayrange/Delivery/Kept.antt =====
-- The steps of a flush keep the ledger valid.
use mathlib.Core.Option
use job_time_stock_watcher.Base.{
  ℕ, ◌+◌, ◌≤◌, is_neg, true, false, [], ◌∷◌, none, some, Text, Map, IsMap, lookup, insert, text_eq,
  text_eq_iff, lookup-insert, insert-IsMap, map_values, map_values-IsMap, lookup-map_values,
  lookup-In, All, All-In, is_empty, ◌≡◌, refl, subst, ◌⊎◌, inl, inr, Option-cases, Bool-cases,
  arith,
}
use job_time_stock_watcher.Notify.{ChannelState, Event, Ledger, Delivery}
use job_time_stock_watcher.Notify.States.{channel_map, state_at, IsLedger, lookup-map_channels}
use job_time_stock_watcher.Notify.Marks.{put_state}
use job_time_stock_watcher.Notify.Upkeep.{expire, expire_event, expire_state, is_past}
use job_time_stock_watcher.Notify.Validate.{validate, check_channels, check_event, is_known}
use job_time_stock_watcher.Notify.Validate.Carried.{check_events→Checked}
use job_time_stock_watcher.Dayrange.Delivery.Room.{tally, Fits, put_state-Fits, expire-Fits}
use job_time_stock_watcher.Notify.Validate.Kept.{IsLoose, put_state_keeps, upkeep_keeps_valid}

-- The event and its channel are stored, and so is the event's dependency, if it has one.
pub record Deliverable (l : Ledger) (d : Delivery) : Type 0 where
  pub event : Event
  pub state : ChannelState
  pub stored : lookup d.event_id l.events ≡ some event
  pub listed : lookup d.channel (channel_map event) ≡ some state
  pub supported :
      (is_empty event.depends_on ≡ true)
      ⊎ ((other : Event) × (lookup event.depends_on l.events ≡ some other))

-- A sound ledger.
pub record IsSound (l : Ledger) : Type 0 where
  pub maps : IsLedger l
  pub valid : validate l ≡ none

-- A step from `l` to `m` keeps the ledger sound and the deliveries deliverable, and takes at most `n`
-- of the room of the attempt counts.
pub record Keeps (n : ℕ) (l m : Ledger) : Type 0 where
  pub sound : IsSound m
  pub room : (k : ℕ) → Fits (n + k) l → Fits k m
  pub still : (d : Delivery) → Deliverable l d → Deliverable m d

pub Keeps-trans : (a b : ℕ) (l m n : Ledger) → Keeps a l m → Keeps b m n → Keeps (a + b) l n
Keeps-trans a b l m n h k = record {
  sound = k.sound;
  room = λ j f. k.room j (h.room (b + j) (λ id ch s q. let r = f id ch s q in omega (arith, r)));
  still = λ d x. k.still d (h.still d x);
}

-- An event goes on with its dependency and with all its channels.
record Continues (e e' : Event) : Type 0 where
  dependent : e'.depends_on ≡ e.depends_on
  channels :
      (ch : Text) (s : ChannelState)
      → lookup ch (channel_map e) ≡ some s
      → (s' : ChannelState) × (lookup ch (channel_map e') ≡ some s')

-- All events go on.
Extends : Ledger → Ledger → Type 0
Extends l m =
    (id : Text) (e : Event)
    → lookup id l.events ≡ some e
    → (e' : Event) × (lookup id m.events ≡ some e') × Continues e e'

still_of_Extends : (l m : Ledger) → Extends l m → (d : Delivery) → Deliverable l d → Deliverable m d
unfolding Extends
still_of_Extends l m x d h =
    let (e', q, c) = x d.event_id h.event h.stored in
    let (s', p) = c.channels d.channel h.state h.listed in
    record {
      event = e';
      state = s';
      stored = q;
      listed = p;
      supported = elim (h.supported) [
        | inl n ↦ inl (rw c.dependent n)
        | inr (f, k) ↦ let (f', r, _) = x h.event.depends_on f k in inr (f', rw c.dependent r)
      ];
    }

Continues-refl : (e : Event) → Continues e e
Continues-refl e = record { dependent = refl; channels = λ ch s h. (s, h) }

insert-Continues :
    (e : Event) (ch : Text) (s : ChannelState)
    → Continues e (record e { channels = Option.map (insert ch s) e.channels })
insert-Continues e ch s = record {
  dependent = refl;
  channels = λ c t h. elim (Option-cases e.channels) [
    | inl n ↦ absurd (unfold lookup in ground (arith, n, h))
    | inr (m, q) ↦ elim (Bool-cases (text_eq ch c)) [
      | inl u ↦ (s, ground (arith, q, lookup-insert ch c s m, u))
      | inr u ↦ (t, ground (arith, q, h, lookup-insert ch c s m, u))
    ]
  ];
}

put_state-Extends : (l : Ledger) (id ch : Text) (s : ChannelState) → Extends l (put_state l id ch s)
unfolding Extends
put_state-Extends l id ch s j f h = elim (Option-cases (lookup id l.events)) [
  | inl n ↦ (f, rw (n, put_state) h, Continues-refl f)
  | inr (e, q) ↦ elim (Bool-cases (text_eq id j)) [
    | inl u ↦
        let e' = record e { channels = Option.map (insert ch s) e.channels } in
        let same : e ≡ f = ground (arith, q, h, text_eq_iff id j, u) in
        (
          e',
          rw (q, put_state) (rw (lookup-insert, u) refl),
          subst (λ x. Continues x e') same (insert-Continues e ch s),
        )
    | inr u ↦ (f, rw (q, put_state) (rw (lookup-insert, u) h), Continues-refl f)
  ]
]

All-insert {κ} :
    (P : Event → Type κ) (k : Text) (v : Event) (m : Map Event)
    → P v
    → All (λ (p : Text × Event). P p.1) m
    → All (λ (p : Text × Event). P p.1) (insert k v m)
unfolding insert
All-insert P k v [] h a = (h, tt)
All-insert P k v ((j, w) ∷ m) h a = elim (Bool-cases (text_eq j k)) [
  | inl e ↦ rw e (h, a.1)
  | inr e ↦ rw e (a.0, All-insert P k v m h a.1)
]

All-map_values {κ} :
    (P : Event → Type κ) (f : Text → Event → Event) (m : Map Event)
    → ((id : Text) (e : Event) → P e → P (f id e))
    → All (λ (p : Text × Event). P p.1) m
    → All (λ (p : Text × Event). P p.1) (map_values f m)
unfolding map_values
All-map_values P f [] h a = tt
All-map_values P f ((id, e) ∷ m) h a = (h id e a.0, All-map_values P f m h a.1)

abbrev ChannelMap : Event → Type 0
ChannelMap e = IsMap (channel_map e)

insert-ChannelMap :
    (e : Event) (ch : Text) (s : ChannelState)
    → ChannelMap e
    → ChannelMap (record e { channels = Option.map (insert ch s) e.channels })
insert-ChannelMap e ch s h = elim (Option-cases e.channels) [
  | inl n ↦ ground (arith, n, h)
  | inr (m, q) ↦ let old : IsMap m = rw q at h in rw q (insert-IsMap ch s m old)
]

put_state-IsLedger :
    (l : Ledger) (id ch : Text) (s : ChannelState) → IsLedger l → IsLedger (put_state l id ch s)
put_state-IsLedger l id ch s h = elim (Option-cases (lookup id l.events)) [
  | inl n ↦ rw (n, put_state) h
  | inr (e, q) ↦
      let e' = record e { channels = Option.map (insert ch s) e.channels } in
      let old : ChannelMap e =
        All-In (λ (p : Text × Event). ChannelMap p.1) (id, e) l.events h.channel_maps
          (lookup-In id e l.events q) in
      rw (q, put_state)
        (record {
          events_map = insert-IsMap id e' l.events h.events_map;
          channel_maps =
              All-insert ChannelMap id e' l.events (insert-ChannelMap e ch s old) h.channel_maps;
        })
]

check_channels-attempts :
    (ch : Text) (s : ChannelState) (m : Map ChannelState)
    → lookup ch m ≡ some s
    → check_channels m ≡ none
    → is_neg s.attempts ≡ false
unfolding check_channels lookup
check_channels-attempts ch s [] at h = ground (arith, at)
check_channels-attempts ch s ((c, t) ∷ m) at h =
    ground (arith, at, h, check_channels-attempts ch s m)

-- What a sound ledger says of a deliverable event.
pub record Checks (e : Event) (id : Text) : Type 0 where
  pub independent : text_eq e.depends_on id ≡ false
  pub channels : check_channels (channel_map e) ≡ none
  pub dated : e.message.expires_at ≡ e.expires_at

pub event-Checks :
    (l : Ledger) (id : Text) (e : Event) → IsSound l → lookup id l.events ≡ some e → Checks e id
unfolding validate
event-Checks l id e h q =
    let all = check_events→Checked l.events l.events (ground (arith, h.valid)) in
    let one =
      All-In (λ (p : Text × Event). check_event l.events p.0 p.1 ≡ none) (id, e) l.events all
        (lookup-In id e l.events q) in
    record {
      independent = unfold check_event in ground (arith, one);
      channels = unfold check_event in ground (arith, one);
      dated = unfold check_event in ground (arith, one);
    }

IsLoose-of : (l : Ledger) (d : Delivery) (h : Deliverable l d) → IsLoose l d.event_id h.state
IsLoose-of l d h = inr (h.event, h.stored, h.supported)

pub at_of :
    (l : Ledger) (d : Delivery) (h : Deliverable l d)
    → state_at l.events d.event_id d.channel ≡ some h.state
at_of l d h = ground (arith, h.stored, h.listed)

pub put_state-Keeps :
    (n : ℕ) (l : Ledger) (d : Delivery) (h : Deliverable l d) (s : ChannelState)
    → IsSound l
    → (is_neg h.state.attempts ≡ false → is_neg s.attempts ≡ false)
    → is_known s.status ≡ true
    → tally s.attempts ≤ n + tally h.state.attempts
    → Keeps n l (put_state l d.event_id d.channel s)
put_state-Keeps n l d h s k neg w rises = record {
  sound = record {
    maps = put_state-IsLedger l d.event_id d.channel s k.maps;
    valid =
        put_state_keeps l d.event_id d.channel h.state s (at_of l d h) (IsLoose-of l d h) neg w
          k.valid;
  };
  room = λ j. put_state-Fits n j l d.event_id d.channel h.state s (at_of l d h) rises;
  still =
      still_of_Extends l (put_state l d.event_id d.channel s)
        (put_state-Extends l d.event_id d.channel s);
}

expire-Extends : (l : Ledger) (now : ℕ) → Extends l (expire l now).0
unfolding Extends expire
expire-Extends l now id e h = (
  expire_event now e,
  rw (lookup-map_values, h) refl,
  elim (Bool-cases (is_past now e)) [
    | inl p ↦ rw p (record {
      dependent = refl;
      channels = λ ch s q. (expire_state s, rw (lookup-map_channels, q) refl);
    })
    | inr p ↦ rw p (Continues-refl e)
  ],
)

expire-ChannelMap :
    (now : ℕ) (id : Text) (e : Event) → ChannelMap e → ChannelMap (expire_event now e)
expire-ChannelMap now id e h = elim (Bool-cases (is_past now e)) [
  | inr p ↦ rw p h
  | inl p ↦ elim (Option-cases e.channels) [
    | inl n ↦ ground (arith, p, n, h)
    | inr (m, q) ↦
        let old : IsMap m = rw q at h in rw (p, q) (map_values-IsMap (λ ch s. expire_state s) m old)
  ]
]

pub expire-Keeps : (n : ℕ) (l : Ledger) (now : ℕ) → IsSound l → Keeps n l (expire l now).0
expire-Keeps n l now k = record {
  room = λ j f. expire-Fits j l now (λ id ch s q. let r = f id ch s q in omega (arith, r));
  sound = record {
    maps =
        unfold expire in
        record {
          events_map = map_values-IsMap (λ id e. expire_event now e) l.events k.maps.events_map;
          channel_maps =
              All-map_values ChannelMap (λ id e. expire_event now e) l.events
                (expire-ChannelMap now) k.maps.channel_maps;
        };
    valid = (upkeep_keeps_valid l now k.valid).1;
  };
  still = still_of_Extends l (expire l now).0 (expire-Extends l now);
}

-- No deliverable channel of a sound ledger has a negative count of attempts.
pub state-attempts :
    (l : Ledger) (d : Delivery) (h : Deliverable l d) → IsSound l → is_neg h.state.attempts ≡ false
state-attempts l d h k =
    check_channels-attempts d.channel h.state (channel_map h.event) h.listed
      (event-Checks l d.event_id h.event k h.stored).channels
