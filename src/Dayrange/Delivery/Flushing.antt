-- ===== src/Dayrange/Delivery/Flushing.antt =====
-- Every flush is safe.
use mathlib.Core.Option
use job_time_stock_watcher.Base.{
  ℕ, true, false, List, [], ◌∷◌, none, some, Text, insert, lookup-insert, text_eq, text_eq_iff,
  text_eq_refl, ◌≡◌, refl, sym, ◌∙◌, subst, inl, inr, Option-cases, Bool-cases, arith,
}
use job_time_stock_watcher.Notify.{Status, ChannelState, Ledger, Delivery}
use job_time_stock_watcher.Notify.Marks.{mark_in_flight, mark_failure, put_state}
use job_time_stock_watcher.Notify.Marks.Locality.{put_state_at}
use job_time_stock_watcher.Notify.Schedule.{can_deliver}
use job_time_stock_watcher.Dayrange.Delivery.{
  Reply, Effect, checked, running, crashed, store_error, stamp, crash_of, channel_missing,
  has_channel, is_nil, send_marked, flush_one,
}
use job_time_stock_watcher.Dayrange.Delivery.Room.{Fits}
use job_time_stock_watcher.Dayrange.Delivery.Kept.{
  Deliverable, IsSound, Keeps-trans, put_state-Keeps, at_of, event-Checks,
}
use job_time_stock_watcher.Dayrange.Delivery.Trace.{
  Safe, stamp_valid, mark_in_flight_put, failure-Marks, crash_none, Keeps-refl, send_marked-Safe,
}

text_eq_sym : (a b : Text) → text_eq a b ≡ false → text_eq b a ≡ false
text_eq_sym a b h = elim (Bool-cases (text_eq b a)) [
  | inr e ↦ e
  | inl e ↦
      let same = (text_eq_iff b a).0 e in
      let impossible : true ≡ false = sym ((text_eq_iff a b).1 (sym same)) ∙ h in cc
]

-- The channel's own state does not matter to whether it may be delivered.
can_deliver-put_state :
    (l : Ledger) (d : Delivery) (h : Deliverable l d) (s : ChannelState)
    → IsSound l
    → can_deliver l d.event_id d.channel ≡ true
    → can_deliver (put_state l d.event_id d.channel s) d.event_id d.channel ≡ true
unfolding can_deliver
can_deliver-put_state l d h s k c =
    let apart =
      text_eq_sym (h.event.depends_on) d.event_id
        (event-Checks l d.event_id h.event k h.stored).independent in
    let e' = record (h.event) { channels = Option.map (insert d.channel s) h.event.channels } in
    ground (
      arith,
      c,
      h.stored,
      apart,
      lookup-insert d.event_id d.event_id e' l.events,
      lookup-insert d.event_id h.event.depends_on e' l.events,
      text_eq_refl d.event_id,
    )

module _ (names : List Text) (now : ℕ) (r : Reply) (l : Ledger) (d : Delivery) where
  one_missing :
      has_channel names d ≡ false
      → flush_one names now r l d ≡ (
        (mark_failure l d.event_id d.channel channel_missing now).0,
        [],
        crash_of (mark_failure l d.event_id d.channel channel_missing now).1,
      )
  unfolding flush_one
  one_missing n = rw n refl

  one_waiting :
      has_channel names d ≡ true
      → can_deliver l d.event_id d.channel ≡ false
      → flush_one names now r l d ≡ (l, [], running)
  unfolding flush_one
  one_waiting n c = rw (n, c) refl

  one_unchecked :
      (x : Text)
      → has_channel names d ≡ true
      → can_deliver l d.event_id d.channel ≡ true
      → r.check ≡ some x
      → flush_one names now r l d ≡ (l, checked ∷ [], store_error x)
  unfolding flush_one
  one_unchecked x n c a = ground (arith, n, c, a)

  one_marked :
      (m : Ledger)
      → has_channel names d ≡ true
      → can_deliver l d.event_id d.channel ≡ true
      → r.check ≡ none
      → mark_in_flight l d.event_id d.channel now ≡ (m, none)
      → stamp m ≡ m
      → flush_one names now r l d
        ≡ ((send_marked r m d).0, checked ∷ (send_marked r m d).1, (send_marked r m d).2)
  unfolding flush_one
  one_marked m n c a e s = ground (arith, n, c, a, e, s)

  pub flush_one-Safe :
      (before : Effect)
      → is_nil r.sending ≡ false
      → IsSound l
      → Deliverable l d
      → Fits 1 l
      → Safe 1 names l before (flush_one names now r l d)
  flush_one-Safe before nn k h fits = elim (Bool-cases (has_channel names d)) [
    | inr n ↦
        let m = failure-Marks l d channel_missing now k h fits in
        subst (Safe 1 names l before) (sym (one_missing n)) (record {
          keeps = m.keeps;
          ordered = tt;
          alive = λ q.
              (let z : running ≡ crashed =
                  sym (
                    crash_none (mark_failure l d.event_id d.channel channel_missing now).1
                      m.succeeds)
                  ∙ q in
                cc);
        })
    | inl n ↦ elim (Bool-cases (can_deliver l d.event_id d.channel)) [
      | inr c ↦
          subst (Safe 1 names l before) (sym (one_waiting n c))
            (record { keeps = Keeps-refl 1 l k; ordered = tt; alive = λ q. cc })
      | inl c ↦ elim (Option-cases (r.check)) [
        | inr (x, a) ↦
            subst (Safe 1 names l before) (sym (one_unchecked x n c a))
              (record { keeps = Keeps-refl 1 l k; ordered = (tt, tt); alive = λ q. cc })
        | inl a ↦
            let s = record h.state { status = Status.in_flight; in_flight_at = now } in
            let m = put_state l d.event_id d.channel s in
            let step = put_state-Keeps 0 l d h s k (λ q. q) refl (omega arith) in
            let marked = step.still d h in
            let safe =
              send_marked-Safe names r m d nn step.sound marked (step.room 1 fits)
                (
                  s,
                  put_state_at l d.event_id d.channel d.event_id d.channel s h.state (at_of l d h)
                      ∙ simp text_eq_refl,
                  refl,
                )
                (can_deliver-put_state l d h s k c) n in
            subst (Safe 1 names l before)
              (sym (
                one_marked m n c a (mark_in_flight_put l d h now) (stamp_valid m step.sound.valid)))
              (record {
                keeps = Keeps-trans 0 1 l m (send_marked r m d).0 step safe.keeps;
                ordered = (tt, safe.ordered);
                alive = safe.alive;
              })
      ]
    ]
  ]
