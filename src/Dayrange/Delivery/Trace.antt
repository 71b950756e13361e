-- ===== src/Dayrange/Delivery/Trace.antt =====
-- What a flush sends and writes, and in which order.
use job_time_stock_watcher.Base.{
  ℕ, max_int, ◌+◌, ◌≤◌, ◌<◌, ℤ, pos, negsuc, is_neg, true, false, List, [], ◌∷◌, Option, none, some,
  Text, leb, ◌≡◌, ◌≢◌, refl, sym, ap, ◌∙◌, subst, inl, inr, Option-cases, Bool-cases, arith,
}
use job_time_stock_watcher.Notify.{
  Status, Kind, ChannelState, Ledger, Delivery, DeliveryError, Error, panicked,
}
use job_time_stock_watcher.Notify.States.{state_at, is_in_flight}
use job_time_stock_watcher.Notify.Marks.{
  channel_state, mark_in_flight, mark_delivered, mark_failure, put_state,
}
use job_time_stock_watcher.Notify.Marks.Locality.{channel_state-some}
use job_time_stock_watcher.Notify.Marks.Backoff.{fail_state-Failed}
use job_time_stock_watcher.Notify.Schedule.{can_deliver}
use job_time_stock_watcher.Notify.Upkeep.{expire}
use job_time_stock_watcher.Notify.Validate.{validate}
use job_time_stock_watcher.Notify.Validate.Kept.{is_max, fail_state_sound}
use job_time_stock_watcher.Dayrange.Delivery.{
  accepted, refused, refused_nil, is_nil, Reply, Effect, checked, wrote, sent, running, crashed,
  store_error, Run, stamp, halt_of, crash_of, delivery_error_of, has_channel, settle_send, send_one,
  send_marked,
}
use job_time_stock_watcher.Dayrange.Delivery.Room.{tally, Fits}
use job_time_stock_watcher.Dayrange.Delivery.Kept.{
  Deliverable, IsSound, Keeps, put_state-Keeps, at_of, state-attempts, expire-Keeps,
}

-- The channel of the delivery is in flight in the ledger.
abbrev pub InFlight : Ledger → Delivery → Type 0
InFlight l d =
    (s : ChannelState) × (state_at l.events d.event_id d.channel ≡ some s)
    × (is_in_flight s.status ≡ true)

-- What may follow an effect. A valid ledger may be written after anything. A message is sent only right
-- after a ledger was written in which its channel is in flight and the event it depends on delivered;
-- its channel is one of the configured ones, and it has not expired.
abbrev pub Follows : List Text → Effect → Effect → Type 0
Follows names before checked = Unit
Follows names before (wrote l) = validate l ≡ none
Follows names (wrote l) (sent d at) =
    InFlight l d
    × (can_deliver l d.event_id d.channel ≡ true)
    × (has_channel names d ≡ true)
    × (at < d.message.expires_at)
Follows names checked (sent d at) = ⊥
Follows names (sent _ _) (sent d at) = ⊥

-- Every effect may follow the one before it.
abbrev pub Ordered : List Text → Effect → List Effect → Type 0
Ordered names before [] = Unit
Ordered names before (e ∷ es) = Follows names before e × Ordered names e es

-- A run from a ledger: it keeps it sound and takes at most `n` of its room, its effects are in order,
-- and it does not panic.
pub record Safe (n : ℕ) (names : List Text) (l : Ledger) (before : Effect) (r : Run) : Type 0 where
  pub keeps : Keeps n l r.0
  pub ordered : Ordered names before r.1
  pub alive : r.2 ≢ crashed

pub stamp_valid : (l : Ledger) → validate l ≡ none → stamp l ≡ l
unfolding validate
stamp_valid l h = ground (arith, h)

pub mark_in_flight_put :
    (l : Ledger) (d : Delivery) (h : Deliverable l d) (now : ℕ)
    → mark_in_flight l d.event_id d.channel now ≡ (
      put_state l d.event_id d.channel
          (record h.state { status = Status.in_flight; in_flight_at = now }),
      none,
    )
unfolding mark_in_flight
mark_in_flight_put l d h now =
    let read = channel_state-some l d.event_id d.channel h.state (at_of l d h) in
    ground (arith, read)

-- A mark of the channel succeeds, and keeps the ledger sound.
pub record Marks (l : Ledger) (r : Ledger × Option Error) : Type 0 where
  pub keeps : Keeps 1 l r.0
  pub succeeds : r.1 ≡ none

delivered-Marks :
    (l : Ledger) (d : Delivery)
    → IsSound l
    → Deliverable l d
    → Marks l (mark_delivered l d.event_id d.channel)
unfolding mark_delivered
delivered-Marks l d k h =
    let s' = record h.state {
      status = Status.delivered;
      kind = Kind.unset;
      next_attempt = 0;
      in_flight_at = 0;
    } in
    let read = channel_state-some l d.event_id d.channel h.state (at_of l d h) in
    let put : mark_delivered l d.event_id d.channel ≡ (put_state l d.event_id d.channel s', none) =
      ground (arith, read) in
    subst (Marks l) (sym put)
      (record { keeps = put_state-Keeps 1 l d h s' k (λ n. n) refl (omega arith); succeeds = refl })

is_pos : (a : ℤ) → is_neg a ≡ false → (n : ℕ) × (a ≡ pos n)
is_pos (pos n) h = (n, refl)
is_pos (negsuc n) h = cc

has_room : (a : ℤ) (n : ℕ) → a ≡ pos n → tally a + 1 ≤ max_int → n < max_int
has_room a n p h = let same : tally a ≡ n = ap tally p in omega (arith, same, h)

below_max : (a : ℤ) (n : ℕ) → a ≡ pos n → n < max_int → is_max a ≡ false
below_max a n p h = ap is_max p ∙ ground (arith, h)

rises_one : (a b : ℤ) (n : ℕ) → a ≡ pos n → b ≡ pos (n + 1) → tally b ≤ 1 + tally a
rises_one a b n p q =
    let old : tally a ≡ n = ap tally p in
    let new : tally b ≡ n + 1 = ap tally q in omega (arith, old, new)

pub failure-Marks :
    (l : Ledger) (d : Delivery) (f : DeliveryError) (now : ℕ)
    → IsSound l
    → (h : Deliverable l d) → Fits 1 l
    → Marks l (mark_failure l d.event_id d.channel f now)
unfolding mark_failure
failure-Marks l d f now k h fits =
    let (n, p) = is_pos (h.state.attempts) (state-attempts l d h k) in
    let free = fits d.event_id d.channel h.state (at_of l d h) in
    let room : n < max_int = has_room h.state.attempts n p free in
    let (s', q, failed) = fail_state-Failed f now n h.state p room in
    let (neg, known) = fail_state_sound f now h.state s' (below_max h.state.attempts n p room) q in
    let read = channel_state-some l d.event_id d.channel h.state (at_of l d h) in
    let put : mark_failure l d.event_id d.channel f now
        ≡ (put_state l d.event_id d.channel s', none) =
      ground (arith, read, q) in
    subst (Marks l) (sym put) (record {
      keeps =
          put_state-Keeps 1 l d h s' k neg known
            (rises_one h.state.attempts s'.attempts n p failed.counted);
      succeeds = refl;
    })

settle_send-Marks :
    (r : Reply) (l : Ledger) (d : Delivery)
    → is_nil r.sending ≡ false
    → IsSound l
    → Deliverable l d
    → Fits 1 l
    → Marks l (settle_send r l d)
unfolding settle_send
settle_send-Marks r l d nn k h fits =
    elim (r.sending)
        as (λ x.
          is_nil x ≡ false
          → Marks l (elim x [
            | accepted ↦ mark_delivered l d.event_id d.channel
            | refused f ↦ mark_failure l d.event_id d.channel (delivery_error_of f) r.failed_at
            | refused_nil ↦ elim (channel_state l d.event_id d.channel) [
              | inl _ ↦ (l, some panicked)
              | inr x ↦ (l, some x)
            ]
          ])) [
            | accepted ↦ λ _. delivered-Marks l d k h
            | refused f ↦ λ _. failure-Marks l d (delivery_error_of f) r.failed_at k h fits
            | refused_nil ↦ λ z. cc
          ]
      nn

pub crash_none : (e : Option Error) → e ≡ none → crash_of e ≡ running
crash_none e h = rw h refl

pub halt_alive : (x : Option Text) → halt_of x ≢ crashed
halt_alive none h = cc
halt_alive (some x) h = cc

send_one-Safe :
    (names : List Text) (r : Reply) (l : Ledger) (d : Delivery)
    → is_nil r.sending ≡ false
    → IsSound l
    → Deliverable l d
    → Fits 1 l
    → Follows names (wrote l) (sent d r.before_send)
    → Safe 1 names l (wrote l) (send_one r l d)
unfolding send_one
send_one-Safe names r l d nn k h fits f =
    let m = settle_send-Marks r l d nn k h fits in
    let ok = crash_none (settle_send r l d).1 m.succeeds in
    let kept = stamp_valid (settle_send r l d).0 m.keeps.sound.valid in
    rw (ok, kept, send_one)
      (record {
        keeps = m.keeps;
        ordered = (f, (m.keeps.sound.valid, tt));
        alive = halt_alive r.save_after;
      })

pub Keeps-refl : (n : ℕ) (l : Ledger) → IsSound l → Keeps n l l
Keeps-refl n l k = record {
  sound = k;
  room = λ j f id ch s q. let r = f id ch s q in omega (arith, r);
  still = λ d h. h;
}

module _ (names : List Text) (r : Reply) (l : Ledger) (d : Delivery) where
  marked_unsaved :
      (x : Text) → r.save_ahead ≡ some x → send_marked r l d ≡ (l, wrote l ∷ [], store_error x)
  unfolding send_marked
  marked_unsaved x a = ground (arith, a)

  marked_late :
      r.save_ahead ≡ none
      → leb d.message.expires_at r.before_send ≡ true
      → send_marked r l d ≡ ((expire l r.expiring_at).0, wrote l ∷ [], running)
  unfolding send_marked
  marked_late a b = ground (arith, a, b)

  marked_sent :
      r.save_ahead ≡ none
      → leb d.message.expires_at r.before_send ≡ false
      → send_marked r l d ≡ ((send_one r l d).0, wrote l ∷ (send_one r l d).1, (send_one r l d).2)
  unfolding send_marked
  marked_sent a b = ground (arith, a, b)

  pub send_marked-Safe :
      is_nil r.sending ≡ false
      → IsSound l
      → Deliverable l d
      → Fits 1 l
      → InFlight l d
      → can_deliver l d.event_id d.channel ≡ true
      → has_channel names d ≡ true
      → Safe 1 names l checked (send_marked r l d)
  send_marked-Safe nn k h fits i c n = elim (Option-cases (r.save_ahead)) [
    | inr (x, a) ↦
        subst (Safe 1 names l checked) (sym (marked_unsaved x a))
          (record { keeps = Keeps-refl 1 l k; ordered = (k.valid, tt); alive = λ h. cc })
    | inl a ↦ elim (Bool-cases (leb d.message.expires_at r.before_send)) [
      | inl b ↦ subst (Safe 1 names l checked) (sym (marked_late a b)) (record {
        keeps = expire-Keeps 1 l r.expiring_at k;
        ordered = (k.valid, tt);
        alive = λ h. cc;
      })
      | inr b ↦
          let one = send_one-Safe names r l d nn k h fits (i, c, n, ground (arith, b)) in
          subst (Safe 1 names l checked) (sym (marked_sent a b))
            (record { keeps = one.keeps; ordered = (k.valid, one.ordered); alive = one.alive })
    ]
  ]
