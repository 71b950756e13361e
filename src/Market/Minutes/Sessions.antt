-- ===== src/Market/Minutes/Sessions.antt =====
-- Sessions and the ends of groups in them, and what Validate has established of a bar.
use job_time_stock_watcher.Base.{
  ℕ, ◌+◌, ◌-◌, ◌*◌, ◌/◌, ◌%◌, ◌≤◌, ◌<◌, true, false, ◌⊎◌, inl, inr, some, ltb, leb, ◌==◌, ◌≡◌, refl,
  sym, subst, Bool-cases, arith,
}
use job_time_stock_watcher.Market.Minutes.{minute_period, minute_of, ends_in, minute_session}
use job_time_stock_watcher.Market.Minutes.Grouping.{group_end}

-- The session of an instant that ends one of its periods.
pub record InSession (start t period : ℕ) : Type 0 where
  pub opens : (start ≡ 570) ⊎ (start ≡ 780)
  pub ends : ends_in start t period ≡ true

session-In : (t period start : ℕ) → minute_session t period ≡ some start → InSession start t period
unfolding minute_session
session-In t period start h = elim (Bool-cases (ends_in 570 t period)) [
  | inl e ↦
      let same : start ≡ 570 = ground (arith, h, e) in
      record { opens = inl same; ends = subst (λ s. ends_in s t period ≡ true) (sym same) e }
  | inr e ↦ elim (Bool-cases (ends_in 780 t period)) [
    | inl f ↦
        let same : start ≡ 780 = ground (arith, h, e, f) in
        record { opens = inr same; ends = subst (λ s. ends_in s t period ≡ true) (sym same) f }
    | inr f ↦ let impossible : false ≡ true = ground (arith, h, e, f) in cc
  ]
]

-- The periods that are aggregated.
abbrev pub IsLong : ℕ → Type 0
IsLong period = (period ≡ 15) ⊎ ((period ≡ 30) ⊎ (period ≡ 60))

-- The minute at which the period of a minute ends.
abbrev slot : ℕ → ℕ → ℕ → ℕ
slot start m period = start + ((m - start - 1) / period + 1) * period

record IsSlot (start m period n : ℕ) : Type 0 where
  after : m ≤ n
  before : n ≤ start + 120
  step : (n - start) % period ≡ 0

slot-IsSlot :
    (start m period : ℕ)
    → start < m
    → m ≤ start + 120
    → IsLong period
    → IsSlot start m period (slot start m period)
slot-IsSlot start m period a b (inl e) = rw e (record {
  after = omega (arith, a, b);
  before = omega (arith, a, b);
  step = omega (arith, a, b);
})
slot-IsSlot start m period a b (inr (inl e)) = rw e (record {
  after = omega (arith, a, b);
  before = omega (arith, a, b);
  step = omega (arith, a, b);
})
slot-IsSlot start m period a b (inr (inr e)) = rw e (record {
  after = omega (arith, a, b);
  before = omega (arith, a, b);
  step = omega (arith, a, b);
})

day_minute : (d n : ℕ) → n ≤ 900 → minute_of (d * 86400 + n * 60) ≡ n
day_minute d n h = omega (arith, h)

day_day : (d n : ℕ) → n ≤ 900 → (d * 86400 + n * 60) / 86400 ≡ d
day_day d n h = omega (arith, h)

day_second : (d n : ℕ) → (d * 86400 + n * 60) % 60 ≡ 0
day_second d n = omega arith

day_before : (t n : ℕ) → t % 60 ≡ 0 → minute_of t ≤ n → t ≤ t / 86400 * 86400 + n * 60
day_before t n h k = omega (arith, h, k)

not_morning : (t period : ℕ) → ltb 780 (minute_of t) ≡ true → ends_in 570 t period ≡ false
not_morning t period h = ground (arith, h)

long_period : (period : ℕ) → IsLong period → minute_period period ≡ true
long_period period (inl e) = ground (arith, e)
long_period period (inr (inl e)) = ground (arith, e)
long_period period (inr (inr e)) = ground (arith, e)

ends_in-made :
    (start end n period : ℕ)
    → n ≡ minute_of end
    → minute_period period ≡ true
    → start < n
    → n ≤ start + 120
    → (n - start) % period ≡ 0
    → end % 60 ≡ 0
    → ends_in start end period ≡ true
ends_in-made start end n period e p a b c d =
    let low : ltb start (minute_of end) ≡ true = ground (arith, e, a) in
    let high : leb (minute_of end) (start + 120) ≡ true = ground (arith, e, b) in
    let step : ((minute_of end - start) % period == 0) ≡ true =
      subst (λ x. ((x - start) % period == 0) ≡ true) e (ground (arith, c)) in
    let whole : (end % 60 == 0) ≡ true = ground (arith, d) in rw (p, low, high, step, whole) refl

start_small : (start n : ℕ) → (start ≡ 570) ⊎ (start ≡ 780) → n ≤ start + 120 → n ≤ 900
start_small start n (inl e) h = omega (arith, e, h)
start_small start n (inr e) h = omega (arith, e, h)

-- The end of a group, in the same session of the same day.
pub record IsGroupEnd (start t period end : ℕ) : Type 0 where
  pub later : t ≤ end
  pub same_day : end / 86400 ≡ t / 86400
  pub session : minute_session end period ≡ some start

ends-session :
    (start end period : ℕ)
    → (start ≡ 570) ⊎ (start ≡ 780)
    → ends_in start end period ≡ true
    → minute_session end period ≡ some start
unfolding minute_session
ends-session start end period (inl e) h =
    let first = subst (λ s. ends_in s end period ≡ true) e h in ground (arith, e, first)
ends-session start end period (inr e) h =
    let second = subst (λ s. ends_in s end period ≡ true) e h in
    let past : ltb 780 (minute_of end) ≡ true = ground (arith, second) in
    let not_first : ends_in 570 end period ≡ false = not_morning end period past in
    ground (arith, e, second, not_first)

pub group_end-IsGroupEnd :
    (start t period : ℕ)
    → minute_session t 5 ≡ some start
    → IsLong period
    → IsGroupEnd start t period (group_end start period t)
group_end-IsGroupEnd start t period h l =
    let s = session-In t 5 start h in
    let within = s.ends in
    let m = minute_of t in
    let low : start < m = ground (arith, within) in
    let high : m ≤ start + 120 = ground (arith, within) in
    let whole : t % 60 ≡ 0 = ground (arith, within) in
    let k = slot-IsSlot start m period low high l in
    let n = slot start m period in
    let end = t / 86400 * 86400 + n * 60 in
    let small : n ≤ 900 = start_small start n s.opens k.before in
    let here = sym (day_minute (t / 86400) n small) in
    let fits =
      ends_in-made start end n period here (long_period period l) (omega (arith, low, k.after))
        k.before k.step (day_second (t / 86400) n) in
    record {
      later = day_before t n whole k.after;
      same_day = day_day (t / 86400) n small;
      session = ends-session start end period s.opens fits;
    }
