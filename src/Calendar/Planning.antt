-- ===== src/Calendar/Planning.antt =====
-- The session that is complete, and when a plan for the next one is due.
use job_time_stock_watcher.Base.{
  ℕ, zero, suc, ◌+◌, ◌-◌, ◌*◌, ◌≤◌, Bool, true, false, not, ◌⊎◌, inl, inr, some, ltb, leb, ◌==◌,
  if◌then◌else◌, ◌≡◌, refl, sym, ◌∙◌, subst, arith, Bool-cases,
}
use job_time_stock_watcher.Calendar.{
  Calendar, CalendarError, outside, not_found, opens, within, completed_loop, completed_from,
  completed, day_of, hour_of, next_day, early, planned, due_plan, open_of, expired,
}
use job_time_stock_watcher.Calendar.Sessions.{
  trading_covered, trading_outside, AllClosed, IsNext, next_day_iff,
}

AllClosed-snoc :
    (c : Calendar) (d n e : ℕ)
    → e ≡ d + n + 1
    → AllClosed c d n
    → within c e ≡ true
    → opens c e ≡ false
    → AllClosed c d (suc n)
AllClosed-snoc c d zero e h a w o =
    let here : e ≡ d + 1 = omega arith in
    (subst (λ x. within c x ≡ true) here w, subst (λ x. opens c x ≡ false) here o, tt)
AllClosed-snoc c d (suc n) e h a w o =
    let (w', o', a') = a in (w', o', AllClosed-snoc c (d + 1) n e (omega arith) a' w o)

-- `d` is the last session up to `last`.
abbrev pub IsLast : Calendar → ℕ → ℕ → Type 0
IsLast c last d =
    (gap : ℕ) × (d + gap ≡ last) × AllClosed c d gap × (within c d ≡ true) × (opens c d ≡ true)

completed_loop-IsLast :
    (c : Calendar) (fuel last d : ℕ) → completed_loop c fuel last ≡ inr d → IsLast c last d
unfolding completed_loop
completed_loop-IsLast c zero last d h = ground (arith, h)
completed_loop-IsLast c (suc fuel) zero d h = elim (Bool-cases (within c 0)) [
  | inr w ↦
      let other : inl outside ≡ inr d = sym (rw (completed_loop, trading_outside c 0 w) refl) ∙ h in
      ground (arith, other)
  | inl w ↦ elim (Bool-cases (opens c 0)) [
    | inl o ↦
        let same : inr 0 ≡ inr d = sym (rw (completed_loop, trading_covered c 0 w, o) refl) ∙ h in
        let e : 0 ≡ d = ground (arith, same) in
        (
          0,
          omega (arith, e),
          tt,
          subst (λ x. within c x ≡ true) e w,
          subst (λ x. opens c x ≡ true) e o,
        )
    | inr o ↦
        let other : (if fuel == 0 then inl not_found else inl outside) ≡ inr d =
          sym (rw (completed_loop, trading_covered c 0 w, o) refl) ∙ h in
        ground (arith, other)
  ]
]
completed_loop-IsLast c (suc fuel) (suc last) d h = elim (Bool-cases (within c (suc last))) [
  | inr w ↦
      let other : inl outside ≡ inr d =
        sym (rw (completed_loop, trading_outside c (suc last) w) refl) ∙ h in
      ground (arith, other)
  | inl w ↦ elim (Bool-cases (opens c (suc last))) [
    | inl o ↦
        let same : inr (suc last) ≡ inr d =
          sym (rw (completed_loop, trading_covered c (suc last) w, o) refl) ∙ h in
        let e : suc last ≡ d = ground (arith, same) in
        (
          0,
          omega (arith, e),
          tt,
          subst (λ x. within c x ≡ true) e w,
          subst (λ x. opens c x ≡ true) e o,
        )
    | inr o ↦
        let same : completed_loop c fuel last ≡ inr d =
          sym (rw (completed_loop, trading_covered c (suc last) w, o) refl) ∙ h in
        let (gap, at, closed, covered, live) = completed_loop-IsLast c fuel last d same in
        (
          suc gap,
          omega (arith, at),
          AllClosed-snoc c d gap (suc last) (omega (arith, at)) closed w o,
          covered,
          live,
        )
  ]
]

-- The last day whose session is over at `now`, if it has one.
abbrev pub last_of : ℕ → Bool → ℕ
last_of day before_close = if before_close then day - 1 else day

abbrev pub last_closed : ℕ → ℕ
last_closed now = last_of (day_of now) (ltb (hour_of now) 15)

completed_from-IsLast :
    (c : Calendar) (day : ℕ) (before_close : Bool) (d : ℕ)
    → completed_from c day before_close ≡ inr d
    → IsLast c (last_of day before_close) d × ((if before_close then 1 else 0) ≤ day)
completed_from-IsLast c day false d h = (completed_loop-IsLast c 31 day d h, omega arith)
completed_from-IsLast c zero true d h = ground (arith, h)
completed_from-IsLast c (suc day) true d h =
    let before : day ≡ suc day - 1 = omega arith in
    (subst (λ x. IsLast c x d) before (completed_loop-IsLast c 31 day d h), omega arith)

over_before :
    (now d : ℕ)
    → d ≤ last_closed now
    → (if ltb (hour_of now) 15 then 1 else 0) ≤ day_of now
    → d * 86400 + 54000 ≤ now
over_before now d h k = ground arith

-- The session that `Completed` returns is over: it is the last one up to yesterday, or up to today from
-- 15:00 on, and its close is not after the given time.
pub completed-IsLast :
    (c : Calendar) (now d : ℕ)
    → completed c now ≡ inr d
    → IsLast c (last_closed now) d × (d * 86400 + 54000 ≤ now)
unfolding completed
completed-IsLast c now d h = elim (Bool-cases (within c (day_of now))) [
  | inr w ↦
      let other : inl outside ≡ inr d =
        sym (rw (completed, trading_outside c (day_of now) w) refl) ∙ h in
      ground (arith, other)
  | inl w ↦
      let same : completed_from c (day_of now) (ltb (hour_of now) 15) ≡ inr d =
        sym (rw (completed, trading_covered c (day_of now) w) refl) ∙ h in
      let (last, late) = completed_from-IsLast c (day_of now) (ltb (hour_of now) 15) d same in
      let (gap, at, closed, covered, live) = last in
      (last, over_before now d (omega (arith, at)) late)
]

result-cases {ℓ} :
    {A : Type ℓ} (r : CalendarError ⊎ A)
    → ((e : CalendarError) × (r ≡ inl e)) ⊎ ((a : A) × (r ≡ inr a))
result-cases (inl e) = inl (e, refl)
result-cases (inr a) = inr (a, refl)

reached : (now t : ℕ) → ltb now t ≡ false → t ≤ now
reached now t h = ground arith

ltb-not : (now t : ℕ) → ltb now t ≡ not (leb t now)
ltb-not now t = ground arith

-- A plan of `Due` is for the session after the last complete one, from its publication time on; it is
-- live exactly until `Expired` says that its target has opened.
pub due_plan_sound :
    (c : Calendar) (now minutes as_of target : ℕ) (live : Bool)
    → due_plan c now (some minutes) ≡ inr (planned as_of target live)
    → IsLast c (last_closed now) as_of
      × IsNext c 31 as_of target
      × (as_of * 86400 + minutes * 60 ≤ now)
      × (live ≡ not (expired (some target) now))
unfolding due_plan expired
due_plan_sound c now minutes as_of target live h = elim (result-cases (completed c now)) [
  | inl (x, e) ↦
      let other : inl x ≡ inr (planned as_of target live) = sym (rw (due_plan, e) refl) ∙ h in
      ground (arith, other)
  | inr (d, e) ↦ elim (Bool-cases (ltb now (d * 86400 + minutes * 60))) [
    | inl b ↦
        let other : inr (early d) ≡ inr (planned as_of target live) =
          sym (rw (due_plan, e, b) refl) ∙ h in
        ground (arith, other)
    | inr b ↦ elim (result-cases (next_day c (some d))) [
      | inl (x, n) ↦
          let other : inl x ≡ inr (planned as_of target live) =
            sym (rw (due_plan, e, b, n) refl) ∙ h in
          ground (arith, other)
      | inr (t, n) ↦
          let same : inr (planned d t (ltb now (open_of t))) ≡ inr (planned as_of target live) =
            sym (rw (due_plan, e, b, n) refl) ∙ h in
          let days : d ≡ as_of = ground (arith, same) in
          let targets : t ≡ target = ground (arith, same) in
          let lives : ltb now (open_of t) ≡ live = ground (arith, same) in
          (
            subst (λ x. IsLast c (last_closed now) x) days (completed-IsLast c now d e).0,
            subst (λ x. IsNext c 31 x target) days
                (subst (λ x. IsNext c 31 d x) targets ((next_day_iff c d t).0 n)),
            subst (λ x. x * 86400 + minutes * 60 ≤ now) days
                (reached now (d * 86400 + minutes * 60) b),
            subst (λ x. live ≡ not (leb (open_of x) now)) targets
                (sym lives ∙ ltb-not now (open_of t)),
          )
    ]
  ]
]
