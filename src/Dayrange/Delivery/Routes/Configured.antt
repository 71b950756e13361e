-- ===== src/Dayrange/Delivery/Routes/Configured.antt =====
-- Every flush is safe, and sends on the configured channels only.
use job_time_stock_watcher.Base.{
  ℕ, length, Bool, true, false, not, List, [], ◌∷◌, ◌++◌, Option, none, some, Text, text_eq,
  text_eq_iff, text_ltb, In-sort_by, is_empty, In, In-append_iff, ◌≡◌, ◌↔◌, refl, sym, ap, subst,
  ◌⊎◌, inl, inr, Bool-cases, arith, if◌then◌else◌,
}
use job_time_stock_watcher.Notify.{Ledger, Delivery}
use job_time_stock_watcher.Notify.States.{IsLedger}
use job_time_stock_watcher.Notify.Schedule.{due}
use job_time_stock_watcher.Notify.Validate.{validate}
use job_time_stock_watcher.Dayrange.Delivery.{Reply, has_channel, is_nil}
use job_time_stock_watcher.Dayrange.Delivery.Kept.{IsSound}
use job_time_stock_watcher.Dayrange.Delivery.Room.{HasRoom, HasRoom-Fits}
use job_time_stock_watcher.Dayrange.Delivery.Safety.{
  IsSafeRun, flush-IsSafeRun, flush_due-IsSafeRun,
}
use job_time_stock_watcher.Dayrange.Delivery.Routes.{
  names_of, has_name, keep_named, route_channels, sending_channels, notice_names, execution_names,
  flush_locked, flush_execution_locked,
}

has_name_iff : (names : List Text) (n : Text) → (has_name names n ≡ true) ↔ In n names
has_name_iff [] n = (λ h. cc, λ h. absurd h.1)
has_name_iff (m ∷ ms) n =
    let ih = has_name_iff ms n in
    let here = text_eq_iff m n in
    (
      λ h. elim (Bool-cases (text_eq m n)) [
        | inl e ↦ inl (here.0 e)
        | inr e ↦ inr (ih.0 (ground (arith, h, e)))
      ],
      λ h. elim h [
        | inl e ↦ let same = here.1 e in ground (arith, same)
        | inr q ↦ let there = ih.1 q in ground (arith, there)
      ],
    )

-- The list that drops `n` or not.
In-test :
    (keep : Bool) (a n : Text) (rest : List Text)
    → In a (if keep then n ∷ rest else rest) ↔ (((keep ≡ true) × (n ≡ a)) ⊎ In a rest)
In-test true a n rest = (
  λ h. elim h [ inl e ↦ inl (refl, e) | inr q ↦ inr q ],
  λ h. elim h [ inl p ↦ inl p.1 | inr q ↦ inr q ],
)
In-test false a n rest =
    (λ h. inr h, λ h. elim h [ inl p ↦ (let impossible : false ≡ true = p.0 in cc) | inr q ↦ q ])

keep_named_iff :
    (ns names : List Text) (a : Text) → In a (keep_named ns names) ↔ (In a ns × In a names)
unfolding keep_named
keep_named_iff [] names a = (λ h. absurd h.1, λ h. absurd h.0.1)
keep_named_iff (n ∷ ns) names a =
    let ih = keep_named_iff ns names a in
    let known = has_name_iff names n in
    let test = In-test (has_name names n) a n (keep_named ns names) in
    (
      λ h. elim (test.0 h) [
        | inl (k, e) ↦ (inl e, subst (λ x. In x names) e (known.0 k))
        | inr q ↦ (inr (ih.0 q).0, (ih.0 q).1)
      ],
      λ (h, k). elim h [
        | inl e ↦ test.1 (inl (known.1 (subst (λ x. In x names) (sym e) k), e))
        | inr q ↦ test.1 (inr (ih.1 (q, k)))
      ],
    )

-- A channel that is not nil has the name, and the name is not empty.
abbrev pub IsNamed : List (Option Text) → Text → Type 0
IsNamed channels n = In (some n) channels × (is_empty n ≡ false)

names_of_next :
    (n : Text) (cs : List (Option Text))
    → names_of (some n ∷ cs) ≡ (if not (is_empty n) then n ∷ names_of cs else names_of cs)
unfolding names_of
names_of_next n cs = ground arith

names_of_iff : (cs : List (Option Text)) (a : Text) → In a (names_of cs) ↔ IsNamed cs a
unfolding names_of
names_of_iff [] a = (λ h. absurd h.1, λ h. absurd h.0.1)
names_of_iff (none ∷ cs) a =
    let ih = names_of_iff cs a in
    (
      λ h. (inr (ih.0 h).0, (ih.0 h).1),
      λ (h, k). elim h [ inl e ↦ (let impossible : none ≡ some a = e in cc) | inr q ↦ ih.1 (q, k) ],
    )
names_of_iff (some n ∷ cs) a =
    let ih = names_of_iff cs a in
    let test = In-test (not (is_empty n)) a n (names_of cs) in
    (
      λ h. elim (test.0 (subst (In a) (names_of_next n cs) h)) [
        | inl (k, e) ↦
            (inl (ap (λ x. some x) e), subst (λ x. is_empty x ≡ false) e (ground (arith, k)))
        | inr q ↦ (inr (ih.0 q).0, (ih.0 q).1)
      ],
      λ (h, k). subst (In a) (sym (names_of_next n cs)) (elim h [
        | inl e ↦
            let same : n ≡ a = cc in
            test.1 (inl (subst (λ x. not (is_empty x) ≡ true) (sym same) (ground (arith, k)), same))
        | inr q ↦ test.1 (inr (ih.1 (q, k)))
      ]),
    )

route_channels_iff :
    (channels : List (Option Text)) (route : List Text) (a : Text)
    → In a (route_channels channels route) ↔ (In a route × IsNamed channels a)
unfolding route_channels
route_channels_iff channels route a =
    let sorted = In-sort_by text_ltb a (keep_named route (names_of channels)) in
    let kept = keep_named_iff route (names_of channels) a in
    let named = names_of_iff channels a in
    (
      λ h. let (r, n) = kept.0 (sorted.0 h) in (r, named.0 n),
      λ (r, n). sorted.1 (kept.1 (r, named.1 n)),
    )

-- The delivery's channel is one that the code has, under a name that is not empty, and it is in the
-- routes.
abbrev pub IsRouted : List (Option Text) → List Text → Delivery → Type 0
IsRouted channels routes d = IsNamed channels d.channel × In d.channel routes

notice_names_iff :
    (channels : List (Option Text)) (dayrange premarket : List Text) (d : Delivery)
    → (has_channel (notice_names channels dayrange premarket) d ≡ true)
      ↔ IsRouted channels (dayrange ++ premarket) d
unfolding notice_names sending_channels
notice_names_iff channels dayrange premarket d =
    let first = route_channels channels dayrange in
    let second = route_channels channels premarket in
    let a = d.channel in
    let known = has_name_iff (notice_names channels dayrange premarket) a in
    let kept = keep_named_iff (names_of channels) (first ++ second) a in
    let named = names_of_iff channels a in
    let both = In-append_iff a first second in
    let routes = In-append_iff a dayrange premarket in
    (
      λ h.
          let (n, r) = kept.0 (known.0 h) in
          (
            named.0 n,
            routes.1 (elim (both.0 r) [
              | inl q ↦ inl ((route_channels_iff channels dayrange a).0 q).0
              | inr q ↦ inr ((route_channels_iff channels premarket a).0 q).0
            ]),
          ),
      λ (n, r). known.1 (
          kept.1 (
            named.1 n,
            both.1 (elim (routes.0 r) [
              | inl q ↦ inl ((route_channels_iff channels dayrange a).1 (q, n))
              | inr q ↦ inr ((route_channels_iff channels premarket a).1 (q, n))
            ]),
          )),
    )

execution_names_iff :
    (channels : List (Option Text)) (route : List Text) (d : Delivery)
    → (has_channel (execution_names channels route) d ≡ true) ↔ IsRouted channels route d
unfolding execution_names sending_channels
execution_names_iff channels route d =
    let a = d.channel in
    let known = has_name_iff (execution_names channels route) a in
    let kept = keep_named_iff (names_of channels) (route_channels channels route) a in
    let named = names_of_iff channels a in
    let routed = route_channels_iff channels route a in
    (
      λ h. let (n, r) = kept.0 (known.0 h) in (named.0 n, (routed.0 r).0),
      λ (n, r). known.1 (kept.1 (named.1 n, routed.1 (r, n))),
    )

-- Let a ledger be valid and its lists stand for maps, let no attempt count come above the largest `int`
-- by as many attempts as deliveries are due, and let no channel answer with a nil `*DeliveryError`.
-- Then neither `flushLocked` nor `flushExecutionLocked` panics, and both leave a valid ledger, whatever
-- else the store, the clock and the channels do. Every ledger that they write is valid. They send a
-- message only on a channel of their own, under a name that is not empty and in one of their routes,
-- before the message expires, and right after they wrote a ledger in which that channel is in flight
-- and the event that it depends on is delivered there.
pub flush_locked-IsSafeRun :
    (has_store push_enabled : Bool) (channels : List (Option Text))
    (dayrange premarket execution : List Text) (now : ℕ) (world : Delivery → Reply)
    (last_save : Option Text) (l : Ledger)
    → ((d : Delivery) → is_nil (world d).sending ≡ false)
    → IsLedger l
    → validate l ≡ none
    → HasRoom (length (due l now)) l
    → IsSafeRun
        (notice_names channels dayrange premarket)
        (flush_locked has_store push_enabled channels dayrange premarket now world last_save l)
      × ((d : Delivery)
          → (has_channel (notice_names channels dayrange premarket) d ≡ true)
            ↔ IsRouted channels (dayrange ++ premarket) d)
      × IsSafeRun
          (execution_names channels execution)
          (flush_execution_locked has_store channels execution now world last_save l)
      × ((d : Delivery)
          → (has_channel (execution_names channels execution) d ≡ true)
            ↔ IsRouted channels execution d)
unfolding flush_locked flush_execution_locked
flush_locked-IsSafeRun false push channels dayrange premarket execution now world last_save l nn h v
      room =
    (
      (v, tt, λ q. cc),
      notice_names_iff channels dayrange premarket,
      (v, tt, λ q. cc),
      execution_names_iff channels execution,
    )
flush_locked-IsSafeRun true push channels dayrange premarket execution now world last_save l nn h v
      room =
    let sound : IsSound l = record { maps = h; valid = v } in
    let fits = HasRoom-Fits (length (due l now)) l room in
    (
      flush-IsSafeRun (notice_names channels dayrange premarket) now world last_save l push nn sound
          fits,
      notice_names_iff channels dayrange premarket,
      flush_due-IsSafeRun (execution_names channels execution) now world last_save l nn sound fits,
      execution_names_iff channels execution,
    )
