-- ===== src/Market/Minutes/Fitting.antt =====
-- The final bars that `AggregateMinutes` makes of accepted bars are accepted.
use job_time_stock_watcher.Base.{
  ℕ, suc, ◌+◌, ◌-◌, ◌*◌, ◌/◌, ◌^◌, ◌≤◌, true, false, inl, inr, List, [], ◌∷◌, ◌++◌, some, is_some,
  length, all, All, All-In, ◌≡◌, refl, sym, ap, ◌∙◌, subst, Bool-cases, arith,
}
use job_time_stock_watcher.Market.Minutes.{MinuteBar, minute_session}
use job_time_stock_watcher.Market.Minutes.Grouping.{group_end, final_bars}
use job_time_stock_watcher.Market.Minutes.Gathers.{spaced, last_close, StartsAfter, IsBarOf}
use job_time_stock_watcher.Market.Minutes.Sessions.{IsLong, group_end-IsGroupEnd}
use job_time_stock_watcher.Market.Minutes.Aggregates.{
  Groups, done, skip, take, drop, IsGroup, gathered, emitted-IsGroup,
}
use job_time_stock_watcher.Market.Minutes.Accepted.{
  IsPriced, IsFit, Fits, Fits-lower, Fits-raise, Fits-suffix,
}

abbrev last_end : ℕ → List MinuteBar → ℕ
last_end e [] = e
last_end e (b ∷ bs) = last_end b.end bs

spaced-last_end :
    (e : ℕ) (ms : List MinuteBar) → spaced e ms ≡ true → last_end e ms ≡ e + 300 * length ms
spaced-last_end e [] h = omega arith
spaced-last_end e (b ∷ bs) h =
    let ih = spaced-last_end b.end bs (ground (arith, h)) in
    let step : b.end ≡ e + 300 = ground (arith, h) in omega (arith, ih, step)

Fits-IsPriced :
    (period fetched low : ℕ) (ms bs : List MinuteBar)
    → Fits period fetched low (ms ++ bs)
    → All IsPriced ms
Fits-IsPriced period fetched low [] bs f = tt
Fits-IsPriced period fetched low (m ∷ ms) bs (f, fs) =
    (f.priced, Fits-IsPriced period fetched m.end ms bs fs)

Fits-settled :
    (period fetched low e : ℕ) (ms bs : List MinuteBar)
    → e ≤ fetched
    → all (λ b. b.final) ms ≡ true
    → Fits period fetched low (ms ++ bs)
    → last_end e ms ≤ fetched
Fits-settled period fetched low e [] bs h a f = h
Fits-settled period fetched low e (m ∷ ms) bs h a (f, fs) =
    Fits-settled period fetched m.end m.end ms bs (f.settled (ground (arith, a)))
      (ground (arith, a)) fs

last_close-between :
    (first : MinuteBar) (ms : List MinuteBar) (low high : ℕ)
    → All IsPriced (first ∷ ms)
    → All (λ b. b.high ≤ high) (first ∷ ms)
    → All (λ b. low ≤ b.low) (first ∷ ms)
    → (low ≤ last_close first ms) × (last_close first ms ≤ high)
last_close-between first [] low high (p, _) (h, _) (l, _) =
    let above = p.close_above in
    let below = p.close_below in (omega (arith, above, l), omega (arith, below, h))
last_close-between first (m ∷ ms) low high (_, p) (_, h) (_, l) =
    last_close-between m ms low high p h l

pub bar-IsPriced :
    (first : MinuteBar) (ms : List MinuteBar) (a : MinuteBar)
    → IsBarOf first ms a
    → All IsPriced (first ∷ ms)
    → IsPriced a
bar-IsPriced first ms a k p =
    let (b, b_in, b_high) = k.peak in
    let (c, c_in, c_low) = k.trough in
    let (f, _) = p in
    let (top, _) = k.over in
    let (bottom, _) = k.under in
    let (above, below) = last_close-between first ms a.low a.high p k.over k.under in
    let high = (All-In IsPriced b (first ∷ ms) p b_in).high_number in
    let positive = (All-In IsPriced c (first ∷ ms) p c_in).positive in
    let opens = k.opens in
    let closes = k.closes in
    let open_below = f.open_below in
    let open_above = f.open_above in
    let number : a.high ≤ 10 ^ 18 = omega (arith, high, b_high) in
    record {
      open_number = omega (arith, opens, open_below, top, number);
      high_number = number;
      low_number = omega (arith, above, below, number);
      close_number = omega (arith, closes, below, number);
      positive = omega (arith, positive, c_low);
      open_below = omega (arith, opens, open_below, top);
      close_below = omega (arith, closes, below);
      open_above = omega (arith, opens, open_above, bottom);
      close_above = omega (arith, closes, above);
    }

long_length : (period n : ℕ) → IsLong period → suc n ≡ period / 5 → (period - 5) * 60 ≡ 300 * n
long_length period n (inl e) h = omega (arith, e, h)
long_length period n (inr (inl e)) h = omega (arith, e, h)
long_length period n (inr (inr e)) h = omega (arith, e, h)

-- The bar of a complete group of accepted bars.
group-IsFit :
    (period fetched low : ℕ) (first : MinuteBar) (ms bs : List MinuteBar) (a : MinuteBar)
    → IsLong period
    → IsGroup period fetched first ms bs a
    → Fits 5 fetched low (first ∷ (ms ++ bs))
    → a.final ≡ true
    → IsFit period fetched low a
group-IsFit period fetched low first ms bs a long k (f, fs) final =
    let g = group_end-IsGroupEnd k.start first.end period k.session long in
    let settled = k.settled in
    let ends = k.ends in
    let starts = k.starts in
    let later = g.later in
    let after = f.later in
    let day = g.same_day in
    let weekday = f.weekday in
    let finals : all (λ b. b.final) (first ∷ ms) ≡ true = ground (arith, settled, final) in
    let full : length (first ∷ ms) ≡ period / 5 = ground (arith, settled, final) in
    let gap = long_length period (length ms) long (omega (arith, full)) in
    let last = spaced-last_end first.end ms k.contiguous in
    let first_final : first.final ≡ true = ground (arith, finals) in
    let observed =
      Fits-settled 5 fetched first.end first.end ms bs (f.settled first_final)
        (ground (arith, finals)) fs in
    let bound : a.end ≤ fetched = omega (arith, starts, gap, last, observed) in
    let end_day : a.end / 86400 ≡ first.end / 86400 = ap (λ e. e / 86400) ends ∙ day in
    record {
      session = ap (λ e. is_some (minute_session e period)) ends ∙ ap is_some g.session;
      later = omega (arith, after, later, ends);
      fetched_near = omega (arith, bound);
      weekday = rw end_day weekday;
      priced = bar-IsPriced first ms a k.bar (f.priced, Fits-IsPriced 5 fetched first.end ms bs fs);
      settled = λ _. bound;
    }

pub some-injective : {m n : ℕ} → some m ≡ some n → m ≡ n
some-injective h = cc

final_bars-final :
    (a : MinuteBar) (bs : List MinuteBar) → a.final ≡ true → final_bars (a ∷ bs) ≡ a ∷ final_bars bs
final_bars-final a bs h = rw h refl

final_bars-pending :
    (a : MinuteBar) (bs : List MinuteBar) → a.final ≡ false → final_bars (a ∷ bs) ≡ final_bars bs
final_bars-pending a bs h = rw h refl

Fits-rest :
    (period fetched low : ℕ) (first : MinuteBar) (ms bs all_bars : List MinuteBar)
    → all_bars ≡ ms ++ bs
    → Fits period fetched low (first ∷ all_bars)
    → Fits period fetched low bs
Fits-rest period fetched low first ms bs all_bars split f =
    Fits-suffix period fetched low (first ∷ ms) bs
      (subst (λ xs. Fits period fetched low (first ∷ xs)) split f)

pub Groups-Fits :
    (period fetched low : ℕ) {bars out : List MinuteBar}
    → IsLong period
    → Groups period fetched bars out
    → Fits 5 fetched low bars
    → Fits period fetched low (final_bars out)
Groups-Fits period fetched low long done f = tt
Groups-Fits period fetched low long (skip first bs out n more) (f, fs) =
    let later = f.later in
    Groups-Fits period fetched low long more
      (Fits-lower 5 fetched low first.end bs (omega (arith, later)) fs)
Groups-Fits period fetched low long (drop first bs out start g session same e more) f =
    let k = gathered period fetched first bs start g session same in
    Groups-Fits period fetched low long more
      (Fits-rest 5 fetched low first k.members g.rest bs k.split f)
Groups-Fits period fetched low long (take first bs out start g a session same e is more) f =
    let k = gathered period fetched first bs start g session same in
    let group =
      subst (IsGroup period fetched first k.members g.rest) (sym is)
        (emitted-IsGroup period fetched first bs start g session same e) in
    let rest = Fits-rest 5 fetched low first k.members g.rest bs k.split f in
    elim (Bool-cases a.final) [
      | inr p ↦
          subst (Fits period fetched low) (sym (final_bars-pending a out p))
            (Groups-Fits period fetched low long more rest)
      | inl p ↦
          let whole = subst (λ xs. Fits 5 fetched low (first ∷ xs)) k.split f in
          let fit = group-IsFit period fetched low first k.members g.rest a long group whole p in
          let here : group.start ≡ start = some-injective (sym group.session ∙ session) in
          let ends = group.ends ∙ ap (λ s. group_end s period first.end) here in
          let stops = subst (λ e. StartsAfter e g.rest) (sym ends) k.stops in
          subst (Fits period fetched low) (sym (final_bars-final a out p)) (
            fit,
            Groups-Fits period fetched a.end long more
                (Fits-raise 5 fetched low a.end g.rest stops rest),
          )
    ]
