-- ===== src/Dayrange/Delivery/Room.antt =====
-- How far the attempt counts of a ledger are from the largest `int`.
use job_time_stock_watcher.Base.{
  ℕ, ℤ, pos, negsuc, max_int, ◌+◌, ◌≤◌, ◌&&◌, some, Text, lookup, lookup-In, lookup-map_values,
  text_eq, All, All-In, ◌≡◌, refl, sym, subst, inl, inr, Option-cases, Bool-cases, arith,
}
use job_time_stock_watcher.Notify.{ChannelState, Event, Ledger}
use job_time_stock_watcher.Notify.States.{channel_map, state_at, lookup-map_channels}
use job_time_stock_watcher.Notify.Marks.{put_state}
use job_time_stock_watcher.Notify.Marks.Locality.{put_state_at}
use job_time_stock_watcher.Notify.Upkeep.{expire, expire_event, expire_state, is_past}

-- A count of attempts, and 0 for a negative one.
abbrev pub tally : ℤ → ℕ
tally (pos n) = n
tally (negsuc n) = 0

-- No count of the ledger comes above the largest `int` by `k` more attempts.
abbrev pub HasRoom : ℕ → Ledger → Type 0
HasRoom k l =
    All
      (λ (p : Text × Event).
        All (λ (q : Text × ChannelState). tally q.1.attempts + k ≤ max_int) (channel_map p.1))
      l.events

-- The same of every state that is found.
abbrev pub Fits : ℕ → Ledger → Type 0
Fits k l =
    (id ch : Text) (s : ChannelState)
    → state_at l.events id ch ≡ some s
    → tally s.attempts + k ≤ max_int

found_in :
    (l : Ledger) (id ch : Text) (s : ChannelState)
    → state_at l.events id ch ≡ some s
    → (e : Event) × (lookup id l.events ≡ some e) × (lookup ch (channel_map e) ≡ some s)
found_in l id ch s h = elim (Option-cases (lookup id l.events)) [
  | inl n ↦ absurd (ground (arith, n, h))
  | inr (e, q) ↦ (e, q, ground (arith, q, h))
]

pub HasRoom-Fits : (k : ℕ) (l : Ledger) → HasRoom k l → Fits k l
HasRoom-Fits k l h id ch s at =
    let (e, q, c) = found_in l id ch s at in
    All-In (λ (p : Text × ChannelState). tally p.1.attempts + k ≤ max_int) (ch, s) (channel_map e)
      (All-In
        (λ (p : Text × Event).
          All (λ (q : Text × ChannelState). tally q.1.attempts + k ≤ max_int) (channel_map p.1))
        (id, e) l.events h (lookup-In id e l.events q))
      (lookup-In ch s (channel_map e) c)

pub put_state-Fits :
    (n k : ℕ) (l : Ledger) (id ch : Text) (old s : ChannelState)
    → state_at l.events id ch ≡ some old
    → tally s.attempts ≤ n + tally old.attempts
    → Fits (n + k) l
    → Fits k (put_state l id ch s)
put_state-Fits n k l id ch old s at rises h j c t found =
    let there = put_state_at l id ch j c s old at in
    elim (Bool-cases (text_eq id j && text_eq ch c)) [
      | inl e ↦
          let same : s ≡ t = ground (arith, there, e, found) in
          let room = h id ch old at in
          subst (λ x. tally x.attempts + k ≤ max_int) same (omega (arith, room, rises))
      | inr e ↦
          let kept : state_at l.events j c ≡ some t = ground (arith, there, e, found) in
          let room = h j c t kept in omega (arith, room)
    ]

expire_state-attempts : (s : ChannelState) → (expire_state s).attempts ≡ s.attempts
unfolding expire_state
expire_state-attempts s = ground arith

expire_event-attempts :
    (now : ℕ) (e : Event) (ch : Text) (t : ChannelState)
    → lookup ch (channel_map (expire_event now e)) ≡ some t
    → (s : ChannelState) × (lookup ch (channel_map e) ≡ some s) × (t.attempts ≡ s.attempts)
expire_event-attempts now e ch t h = elim (Bool-cases (is_past now e)) [
  | inr p ↦ (t, ground (arith, p, h), refl)
  | inl p ↦
      let there = lookup-map_channels (λ c s. expire_state s) e ch in
      elim (Option-cases (lookup ch (channel_map e))) [
        | inl n ↦ absurd (ground (arith, p, h, there, n))
        | inr (s, q) ↦
            let same : expire_state s ≡ t = ground (arith, p, h, there, q) in
            (s, q, subst (λ x. x.attempts ≡ s.attempts) same (expire_state-attempts s))
      ]
]

pub expire-Fits : (k : ℕ) (l : Ledger) (now : ℕ) → Fits k l → Fits k (expire l now).0
unfolding expire
expire-Fits k l now h id ch t found =
    let (e', q', c') = found_in (expire l now).0 id ch t found in
    let there = lookup-map_values (λ i e. expire_event now e) id l.events in
    elim (Option-cases (lookup id l.events)) [
      | inl n ↦ absurd (ground (arith, there, n, q'))
      | inr (e, q) ↦
          let same : expire_event now e ≡ e' = ground (arith, there, q, q') in
          let (s, c, a) =
            expire_event-attempts now e ch t
              (subst (λ x. lookup ch (channel_map x) ≡ some t) (sym same) c') in
          let room = h id ch s (ground (arith, q, c)) in
          subst (λ x. tally x + k ≤ max_int) (sym a) room
    ]
