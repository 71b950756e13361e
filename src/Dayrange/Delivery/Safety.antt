-- ===== src/Dayrange/Delivery/Safety.antt =====
-- The flushes of channels that are given by their names.
use job_time_stock_watcher.Base.{
  ℕ, length, Bool, true, false, List, [], ◌∷◌, ◌++◌, Option, none, Text, is_empty, lookup, In, All,
  ◌≡◌, ◌≢◌, refl, sym, ◌∙◌, subst, inl, inr, Option-cases, Bool-cases, arith, if◌then◌else◌, In-All,
  All-In, lookup-In,
}
use job_time_stock_watcher.Notify.{Status, Event, Ledger, Delivery}
use job_time_stock_watcher.Notify.States.{channel_map, is_terminal, terminal_event}
use job_time_stock_watcher.Notify.Schedule.{awaits, due}
use job_time_stock_watcher.Notify.Schedule.Selection.{due_iff}
use job_time_stock_watcher.Notify.Upkeep.{expire, prune}
use job_time_stock_watcher.Notify.Validate.{validate, check_event, check_dependency}
use job_time_stock_watcher.Notify.Validate.Carried.{check_events→Checked}
use job_time_stock_watcher.Notify.Validate.Gentle.{not_all_terminal}
use job_time_stock_watcher.Notify.Validate.Pruned.{prune_keeps_valid}
use job_time_stock_watcher.Dayrange.Delivery.{
  Reply, Effect, checked, wrote, sent, running, crashed, store_error, Run, stamp, halt_of,
  flush_loop, flush_due, flush, keep_for, is_nil,
}
use job_time_stock_watcher.Dayrange.Delivery.Room.{Fits}
use job_time_stock_watcher.Dayrange.Delivery.Kept.{Deliverable, IsSound, expire-Keeps}
use job_time_stock_watcher.Dayrange.Delivery.Trace.{Follows, Ordered, stamp_valid, halt_alive}
use job_time_stock_watcher.Dayrange.Delivery.Looping.{Ordered-append, Halt-cases, flush_loop-Safe}

awaits_open : (s : Status) → awaits s ≡ true → is_terminal s ≡ false
awaits_open Status.pending h = refl
awaits_open Status.unknowned h = refl
awaits_open Status.in_flight h = cc
awaits_open Status.delivered h = cc
awaits_open Status.blocked h = cc
awaits_open Status.expired h = cc
awaits_open (Status.other _) h = cc

closed_orphan :
    (l : Ledger) (id : Text) (e : Event)
    → check_event l.events id e ≡ none
    → is_empty e.depends_on ≡ false
    → lookup e.depends_on l.events ≡ none
    → terminal_event e ≡ true
unfolding check_event check_dependency
closed_orphan l id e h d n = ground (arith, h, d, n)

written_valid :
    (names : List Text) (before : Effect) (l : Ledger)
    → validate l ≡ none
    → Follows names before (wrote l)
written_valid names checked l h = h
written_valid names (wrote _) l h = h
written_valid names (sent _ _) l h = h

-- What is due in a sound ledger can be delivered.
due-Deliverable :
    (l : Ledger) (now : ℕ) (d : Delivery) → IsSound l → In d (due l now) → Deliverable l d
due-Deliverable l now d k h =
    let due = (due_iff l now d k.maps).0 h in
    let checks =
      check_events→Checked l.events l.events (unfold validate in ground (arith, k.valid)) in
    let one =
      All-In (λ (p : Text × Event). check_event l.events p.0 p.1 ≡ none) (d.event_id, due.event)
        l.events checks (lookup-In d.event_id due.event l.events due.stored) in
    record {
      event = due.event;
      state = due.state;
      stored = due.stored;
      listed = due.routed;
      supported = elim (Bool-cases (is_empty due.event.depends_on)) [
        | inl e ↦ inl e
        | inr e ↦ elim (Option-cases (lookup due.event.depends_on l.events)) [
          | inr (f, q) ↦ inr (f, q)
          | inl n ↦
              let open_state = awaits_open (due.state.status) due.waiting in
              let open_event =
                not_all_terminal d.channel due.state (channel_map due.event) due.routed
                  open_state in
              let closed : terminal_event due.event ≡ true =
                closed_orphan l d.event_id due.event one e n in
              let impossible : true ≡ false = sym closed ∙ open_event in cc
        ]
      ];
    }

All-due : (l : Ledger) (now : ℕ) → IsSound l → All (Deliverable l) (due l now)
All-due l now k = In-All (Deliverable l) (due l now) (λ d h. due-Deliverable l now d k h)

pruned_valid : (l : Ledger) (now : ℕ) → IsSound l → validate (stamp (prune l now keep_for).0) ≡ none
pruned_valid l now k =
    let valid = prune_keeps_valid l now keep_for k.maps k.valid in
    rw (stamp_valid (prune l now keep_for).0 valid) valid

-- What a run leaves and does, from the first effect on.
abbrev pub IsSafeRun : List Text → Run → Type 0
IsSafeRun names r = (validate r.0 ≡ none) × Ordered names checked r.1 × (r.2 ≢ crashed)

module _ (names : List Text) (now : ℕ) (world : Delivery → Reply) (last_save : Option Text)
    (l : Ledger) where
  last_of : Ledger → Ledger
  last_of m = stamp (prune (expire m now).0 now keep_for).0

  due_next :
      is_empty l.events ≡ false
      → (flush_loop names now world l (due l now)).2 ≡ running
      → flush_due names now world last_save l ≡ (
          let run = flush_loop names now world l (due l now) in
          let kept = stamp (prune (expire run.0 now).0 now keep_for).0 in
          (kept, run.1 ++ (wrote kept ∷ []), halt_of last_save))
  unfolding flush_due
  due_next e h = rw (e, flush_due) (rw (h, flush_due) refl)

  due_halted :
      (x : Text)
      → is_empty l.events ≡ false
      → (flush_loop names now world l (due l now)).2 ≡ store_error x
      → flush_due names now world last_save l ≡ (
        (flush_loop names now world l (due l now)).0,
        (flush_loop names now world l (due l now)).1,
        store_error x,
      )
  unfolding flush_due
  due_halted x e h = rw (e, flush_due) (rw (h, flush_due) refl)

  -- If no channel answers with a nil error, the ledger is sound and its attempt counts have room for
  -- all that is due, `flush_due` is a safe run.
  pub flush_due-IsSafeRun :
      ((d : Delivery) → is_nil (world d).sending ≡ false)
      → IsSound l
      → Fits (length (due l now)) l
      → IsSafeRun names (flush_due names now world last_save l)
  unfolding flush_due
  flush_due-IsSafeRun nn k fits = elim (Bool-cases (is_empty l.events)) [
    | inl e ↦ rw (e, flush_due) (k.valid, tt, λ q. cc)
    | inr e ↦
        let run = flush_loop names now world l (due l now) in
        let safe =
          flush_loop-Safe names now world l (due l now) checked nn k (All-due l now k) fits in
        elim (Halt-cases run.2) [
          | inl r ↦
              let valid =
                pruned_valid (expire run.0 now).0 now
                  (expire-Keeps 0 run.0 now safe.keeps.sound).sound in
              subst (IsSafeRun names) (sym (due_next e r)) (
                valid,
                Ordered-append names checked run.1
                    (wrote (stamp (prune (expire run.0 now).0 now keep_for).0) ∷ []) safe.ordered
                    (λ b. (
                      written_valid names b (stamp (prune (expire run.0 now).0 now keep_for).0)
                          valid,
                      tt,
                    )),
                halt_alive last_save,
              )
          | inr (inl c) ↦ absurd (safe.alive c)
          | inr (inr (x, r)) ↦
              subst (IsSafeRun names) (sym (due_halted x e r))
                (safe.keeps.sound.valid, safe.ordered, λ q. cc)
        ]
  ]

  flush_on : flush true names now world last_save l ≡ flush_due names now world last_save l
  unfolding flush flush_due
  flush_on = elim (Bool-cases (is_empty l.events)) [
    | inl e ↦ rw (e, flush, flush_due) refl
    | inr e ↦ rw (e, flush) refl
  ]

  flush_off : flush false names now world last_save l ≡ (
      if is_empty l.events
      then (l, [], running)
      else if (expire l now).1
      then (stamp (expire l now).0, wrote (stamp (expire l now).0) ∷ [], halt_of last_save)
      else ((expire l now).0, [], running))
  unfolding flush
  flush_off = refl

  -- The same of `flush`, whether pushing is on or off.
  pub flush-IsSafeRun :
      (push_enabled : Bool)
      → ((d : Delivery) → is_nil (world d).sending ≡ false)
      → IsSound l
      → Fits (length (due l now)) l
      → IsSafeRun names (flush push_enabled names now world last_save l)
  flush-IsSafeRun true nn k fits = rw flush_on (flush_due-IsSafeRun nn k fits)
  flush-IsSafeRun false nn k fits =
      let gone = (expire-Keeps 0 l now k).sound.valid in
      let kept = stamp_valid (expire l now).0 gone in
      rw flush_off (elim (Bool-cases (is_empty l.events)) [
        | inl e ↦ rw e (k.valid, tt, λ q. cc)
        | inr e ↦ elim (Bool-cases (expire l now).1) [
          | inl c ↦ rw (e, c, kept) (gone, (gone, tt), halt_alive last_save)
          | inr c ↦ rw (e, c) (gone, tt, λ q. cc)
        ]
      ])
