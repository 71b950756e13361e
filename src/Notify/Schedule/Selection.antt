-- ===== src/Notify/Schedule/Selection.antt =====
-- Which deliveries `Due` lists.
use job_time_stock_watcher.Base.{
  ℕ, ◌≤◌, ◌<◌, true, some, [], ◌∷◌, Text, Map, ◌≡◌, ◌↔◌, inl, inr, refl, ap, ◌∙◌, arith, Bool-cases,
  In, All-In, In-append_iff, In-sort_by, In-lookup, lookup-In, lookup, sort_by, ltb, ltb→lt, lt→ltb,
  IsMap, subst, sym,
}
use job_time_stock_watcher.Notify.{ChannelState, Event, Ledger, Delivery}
use job_time_stock_watcher.Notify.States.{channel_map, IsLedger}
use job_time_stock_watcher.Notify.Schedule.{
  awaits, is_ready, ready_channels, event_due, due_events, due, event_less, channel_less, delivery,
}

abbrev Ready : ℕ → Text → Event → Map ChannelState → Delivery → Type 0
Ready now id e m d =
    (s : ChannelState) × In (d.channel, s) m
    × (is_ready now s ≡ true)
    × (delivery id e d.channel ≡ d)

ready_channels_iff :
    (now : ℕ) (id : Text) (e : Event) (m : Map ChannelState) (d : Delivery)
    → In d (ready_channels now id e m) ↔ Ready now id e m d
unfolding ready_channels
ready_channels_iff now id e [] d = (λ p. absurd p.1, λ (s, p, _, _). absurd p.1)
ready_channels_iff now id e ((ch, s) ∷ rest) d =
    let ih = ready_channels_iff now id e rest d in
    elim (Bool-cases (is_ready now s)) [
      | inl r ↦ rw r (
        λ p. elim p [
          | inl q ↦ (
            s,
            inl (ap (λ (x : Delivery). (x.channel, s)) q),
            r,
            ap (λ (x : Delivery). delivery id e x.channel) (sym q) ∙ q,
          )
          | inr q ↦ let (t, i, j, k) = ih.0 q in (t, inr i, j, k)
        ],
        λ (t, i, j, k). elim i [
          | inl q ↦ inl (ap (λ (x : Text × ChannelState). delivery id e x.0) q ∙ k)
          | inr q ↦ inr (ih.1 (t, q, j, k))
        ],
      )
      | inr r ↦ rw r (
        λ p. let (t, i, j, k) = ih.0 p in (t, inr i, j, k),
        λ (t, i, j, k). elim i [
          | inl q ↦
              absurd (ground (arith, r, j, ap (λ (x : Text × ChannelState). is_ready now x.1) q))
          | inr q ↦ ih.1 (t, q, j, k)
        ],
      )
    ]

abbrev EventDue : ℕ → Text → Event → Delivery → Type 0
EventDue now id e d = (ltb now e.expires_at ≡ true) × Ready now id e (channel_map e) d

event_due_iff :
    (now : ℕ) (id : Text) (e : Event) (d : Delivery)
    → In d (event_due now id e) ↔ EventDue now id e d
unfolding event_due
event_due_iff now id e d =
    let sorted = λ (s : ChannelState). In-sort_by channel_less (d.channel, s) (channel_map e) in
    let ready = ready_channels_iff now id e (sort_by channel_less (channel_map e)) d in
    elim (Bool-cases (ltb now e.expires_at)) [
      | inl h ↦ rw h (
        λ p. let (s, i, j, k) = ready.0 p in (refl, (s, (sorted s).0 i, j, k)),
        λ (_, (s, i, j, k)). ready.1 (s, (sorted s).1 i, j, k),
      )
      | inr h ↦ rw h (λ p. absurd p.1, λ (q, _). cc)
    ]

abbrev DueAt : ℕ → Map Event → Delivery → Type 0
DueAt now m d = (id : Text) × (e : Event) × In (id, e) m × EventDue now id e d

due_events_iff : (now : ℕ) (m : Map Event) (d : Delivery) → In d (due_events now m) ↔ DueAt now m d
unfolding due_events
due_events_iff now [] d = (λ p. absurd p.1, λ (id, e, p, _). absurd p.1)
due_events_iff now ((id, e) ∷ rest) d =
    let ih = due_events_iff now rest d in
    let here = event_due_iff now id e d in
    let split = In-append_iff d (event_due now id e) (due_events now rest) in
    (
      λ p. elim (split.0 p) [
        | inl q ↦ (id, e, inl refl, here.0 q)
        | inr q ↦ let (i, f, r, t) = ih.0 q in (i, f, inr r, t)
      ],
      λ (i, f, r, t). elim r [
        | inl q ↦
            split.1 (inl (here.1 (subst (λ (x : Text × Event). EventDue now x.0 x.1 d) (sym q) t)))
        | inr q ↦ split.1 (inr (ih.1 (i, f, q, t)))
      ],
    )

-- What it takes for a delivery to be due, read from the ledger's maps.
pub record IsDue (l : Ledger) (now : ℕ) (d : Delivery) : Type 0 where
  pub event : Event
  pub state : ChannelState
  pub stored : lookup d.event_id l.events ≡ some event
  pub routed : lookup d.channel (channel_map event) ≡ some state
  pub live : now < event.expires_at
  pub waiting : awaits state.status ≡ true
  pub elapsed : state.next_attempt ≤ now
  pub carries : d.message ≡ event.message

-- In a ledger whose lists stand for maps, `Due` lists a delivery exactly when its event is stored
-- and not expired, and its channel's state is pending or unknown with no later attempt time; the
-- delivery carries the event's message.
pub due_iff :
    (l : Ledger) (now : ℕ) (d : Delivery) → IsLedger l → (In d (due l now)) ↔ IsDue l now d
unfolding due
due_iff l now d wf =
    let events = due_events_iff now (sort_by event_less l.events) d in
    (
      λ p.
          let (id, e, i, (live, (s, c, r, k))) = events.0 p in
          let i' = (In-sort_by event_less (id, e) l.events).0 i in
          let maps =
            All-In (λ (q : Text × Event). IsMap (channel_map q.1)) (id, e) l.events wf.channel_maps
              i' in
          record {
            event = e;
            state = s;
            stored =
                subst (λ (x : Delivery). lookup x.event_id l.events ≡ some e) k
                  (In-lookup id e l.events wf.events_map i');
            routed = In-lookup d.channel s (channel_map e) maps c;
            live = ltb→lt _ _ live;
            waiting = ground arith;
            elapsed = ground arith;
            carries = ap (λ (x : Delivery). x.message) (sym k);
          },
      λ h. events.1 (
        d.event_id,
        h.event,
        (In-sort_by event_less (d.event_id, h.event) l.events).1 (lookup-In _ _ _ h.stored),
        (
          lt→ltb _ _ h.live,
          (
            h.state,
            lookup-In _ _ _ h.routed,
            ground (arith, h.waiting, h.elapsed),
            ap (λ m. record d { message = m }) (sym h.carries),
          ),
        ),
      ),
    )
