-- ===== src/Calendar/Sessions.antt =====
-- The sessions between two days, and the one after a day.
use job_time_stock_watcher.Base.{
  ℕ, zero, suc, ◌+◌, ◌-◌, ◌<◌, ◌≤◌, true, false, ◌||◌, ◌⊎◌, inl, inr, List, [], ◌∷◌, some, ltb, ◌≡◌,
  refl, sym, ap, ◌∙◌, subst, ◌↔◌, arith, Bool-cases, In, All, Adjacent,
}
use job_time_stock_watcher.Calendar.{
  Calendar, outside, opens, within, trading, days_loop, trading_days, next_loop, next_day,
}

pub trading_covered :
    (c : Calendar) (d : ℕ) → within c d ≡ true → trading c (some d) ≡ inr (opens c d)
unfolding trading
trading_covered c d h = rw h refl

pub trading_outside : (c : Calendar) (d : ℕ) → within c d ≡ false → trading c (some d) ≡ inl outside
unfolding trading
trading_outside c d h = rw h refl

trading_within :
    (c : Calendar) (d : ℕ) → c.start ≤ d → d ≤ c.end → trading c (some d) ≡ inr (opens c d)
trading_within c d h k =
    let covered : within c d ≡ true = ground arith in trading_covered c d covered

-- The sessions among `n` days from `d` on.
record Lists (c : Calendar) (n d b : ℕ) (days : List ℕ) : Type 0 where
  from : All (λ x. d ≤ x) days
  ascends : Adjacent (λ x y. x < y) days
  member : In b days ↔ ((d ≤ b) × (b < d + n) × (opens c b ≡ true))

All-earlier : (d : ℕ) (days : List ℕ) → All (λ x. d + 1 ≤ x) days → All (λ x. d ≤ x) days
All-earlier d [] h = tt
All-earlier d (x ∷ days) h = (omega (arith, h.0), All-earlier d days h.1)

Adjacent-first :
    (d : ℕ) (days : List ℕ)
    → All (λ x. d + 1 ≤ x) days
    → Adjacent (λ x y. x < y) days
    → Adjacent (λ x y. x < y) (d ∷ days)
Adjacent-first d [] h k = tt
Adjacent-first d (x ∷ days) h k = (omega (arith, h.0), k)

le_split : (d b : ℕ) → d ≤ b → (d ≡ b) ⊎ (d + 1 ≤ b)
le_split d b h = ground arith

closed_open : (c : Calendar) (d b : ℕ) → d ≡ b → opens c d ≡ false → opens c b ≡ true → ⊥
closed_open c d b e o p =
    let impossible : true ≡ false = sym p ∙ subst (λ x. opens c x ≡ false) e o in
    ground (arith, impossible)

Lists-open :
    (c : Calendar) (n d b : ℕ) (days : List ℕ)
    → opens c d ≡ true
    → Lists c n (d + 1) b days
    → Lists c (suc n) d b (d ∷ days)
Lists-open c n d b days o h = record {
  from = (omega arith, All-earlier d days h.from);
  ascends = Adjacent-first d days h.from h.ascends;
  member = (
    λ p. elim p [
      | inl e ↦ (omega arith, omega arith, subst (λ x. opens c x ≡ true) e o)
      | inr q ↦ let (from, to, live) = h.member.0 q in (omega arith, omega arith, live)
    ],
    λ (from, to, live). elim (le_split d b from) [
      | inl e ↦ inl e
      | inr l ↦ inr (h.member.1 (l, omega arith, live))
    ],
  );
}

Lists-closed :
    (c : Calendar) (n d b : ℕ) (days : List ℕ)
    → opens c d ≡ false
    → Lists c n (d + 1) b days
    → Lists c (suc n) d b days
Lists-closed c n d b days o h = record {
  from = All-earlier d days h.from;
  ascends = h.ascends;
  member = (
    λ q. let (from, to, live) = h.member.0 q in (omega arith, omega arith, live),
    λ (from, to, live). elim (le_split d b from) [
      | inl e ↦ absurd (closed_open c d b e o live)
      | inr l ↦ h.member.1 (l, omega arith, live)
    ],
  );
}

days_loop-Lists :
    (c : Calendar) (n d b : ℕ)
    → c.start ≤ d
    → d + n ≤ c.end + 1
    → (days : List ℕ) × (days_loop c n d ≡ inr days) × Lists c n d b days
unfolding days_loop
days_loop-Lists c zero d b h k = (
  [],
  refl,
  record { from = tt; ascends = tt; member = (λ p. absurd p.1, λ p. absurd (omega (arith, p))) },
)
days_loop-Lists c (suc n) d b h k =
    let (days, e, l) = days_loop-Lists c n (d + 1) b (omega arith) (omega arith) in
    let t = trading_within c d h (omega arith) in
    elim (Bool-cases (opens c d)) [
      | inl o ↦ (d ∷ days, rw (days_loop, t, e, o) refl, Lists-open c n d b days o l)
      | inr o ↦ (days, rw (days_loop, t, e, o) refl, Lists-closed c n d b days o l)
    ]

-- Within its coverage, `TradingDays` lists the days from the first to the last in ascending order, and
-- exactly those that are sessions.
pub trading_days_lists :
    (c : Calendar) (first last b : ℕ)
    → c.start ≤ first
    → first ≤ last
    → last ≤ c.end
    → (days : List ℕ) × (trading_days c (some first) (some last) ≡ inr days)
      × Adjacent (λ x y. x < y) days
      × (In b days ↔ ((first ≤ b) × (b ≤ last) × (opens c b ≡ true)))
unfolding trading_days
trading_days_lists c first last b h k l =
    let (days, e, lists) = days_loop-Lists c (last + 1 - first) first b h (omega arith) in
    let ordered : ltb last first ≡ false = ground arith in
    let inside : (ltb first c.start || ltb c.end last) ≡ false = ground arith in
    (
      days,
      rw (ordered, inside, e) refl,
      lists.ascends,
      (
        λ q. let (from, to, live) = lists.member.0 q in (from, omega (arith, to, k), live),
        λ (from, to, live). lists.member.1 (from, omega arith, live),
      ),
    )

-- The `n` days after `d` are covered, and no sessions.
abbrev pub AllClosed : Calendar → ℕ → ℕ → Type 0
AllClosed c d zero = Unit
AllClosed c d (suc n) =
    (within c (d + 1) ≡ true) × (opens c (d + 1) ≡ false) × AllClosed c (d + 1) n

-- `n` is the first session after `d`, at most `fuel` days later.
abbrev pub IsNext : Calendar → ℕ → ℕ → ℕ → Type 0
IsNext c fuel d n =
    (gap : ℕ) × (gap < fuel)
    × (n ≡ d + 1 + gap)
    × AllClosed c d gap
    × (within c n ≡ true)
    × (opens c n ≡ true)

next_loop-IsNext : (c : Calendar) (fuel d n : ℕ) → next_loop c fuel d ≡ inr n → IsNext c fuel d n
unfolding next_loop
next_loop-IsNext c zero d n h = ground (arith, h)
next_loop-IsNext c (suc fuel) d n h = elim (Bool-cases (within c (d + 1))) [
  | inr w ↦
      let other : inl outside ≡ inr n =
        sym (rw (next_loop, trading_outside c (d + 1) w) refl) ∙ h in
      ground (arith, other)
  | inl w ↦ elim (Bool-cases (opens c (d + 1))) [
    | inl o ↦
        let same : inr (d + 1) ≡ inr n =
          sym (rw (next_loop, trading_covered c (d + 1) w, o) refl) ∙ h in
        let e : d + 1 ≡ n = ground (arith, same) in
        (
          0,
          omega arith,
          omega (arith, e),
          tt,
          subst (λ x. within c x ≡ true) e w,
          subst (λ x. opens c x ≡ true) e o,
        )
    | inr o ↦
        let same : next_loop c fuel (d + 1) ≡ inr n =
          sym (rw (next_loop, trading_covered c (d + 1) w, o) refl) ∙ h in
        let (gap, short, at, closed, covered, live) = next_loop-IsNext c fuel (d + 1) n same in
        (suc gap, omega (arith, short), omega (arith, at), (w, o, closed), covered, live)
  ]
]

IsNext-next_loop :
    (c : Calendar) (fuel d n gap : ℕ)
    → gap < fuel
    → n ≡ d + 1 + gap
    → AllClosed c d gap
    → within c n ≡ true
    → opens c n ≡ true
    → next_loop c fuel d ≡ inr n
unfolding next_loop
IsNext-next_loop c zero d n gap g e a w o = absurd (omega arith)
IsNext-next_loop c (suc fuel) d n zero g e a w o =
    let here : n ≡ d + 1 = omega arith in
    rw
      (
        next_loop,
        trading_covered c (d + 1) (subst (λ x. within c x ≡ true) here w),
        subst (λ x. opens c x ≡ true) here o,
      )
      (ap (λ x. inr x) (sym here))
IsNext-next_loop c (suc fuel) d n (suc gap) g e a w o =
    let (w', o', a') = a in
    rw (next_loop, trading_covered c (d + 1) w', o')
      (IsNext-next_loop c fuel (d + 1) n gap (omega arith) (omega arith) a' w o)

-- `Next` returns a day exactly when it is the first session after the given day and at most 31 days
-- later, and the calendar covers all days up to it.
pub next_day_iff : (c : Calendar) (d n : ℕ) → (next_day c (some d) ≡ inr n) ↔ IsNext c 31 d n
unfolding next_day
next_day_iff c d n =
    (next_loop-IsNext c 31 d n, λ (gap, g, e, a, w, o). IsNext-next_loop c 31 d n gap g e a w o)
