-- ===== src/Market/Minutes/Accepted.antt =====
-- What `MinuteHistory.Validate` accepts of the bars.
use job_time_stock_watcher.Base.{
  ℕ, ◌+◌, ◌^◌, ◌≤◌, ◌<◌, true, false, inl, inr, List, [], ◌∷◌, ◌++◌, none, is_some, leb, ◌≡◌,
  Bool-cases, arith,
}
use job_time_stock_watcher.Chanlun.Input.{Float, finite, negative, nan, infinite}
use job_time_stock_watcher.Market.Minutes.{
  RawMinute, MinuteBar, figure, number_in, numbers_fit, minute_session, is_weekend, read_minute,
  read_minutes, time_fits, ohlc_fits, check_minutes,
}
use job_time_stock_watcher.Market.Minutes.Gathers.{StartsAfter}

abbrev pub IsNumber : ℕ → Type 0
IsNumber n = n ≤ 10 ^ 18

pub record IsPriced (b : MinuteBar) : Type 0 where
  pub open_number : IsNumber b.open_price
  pub high_number : IsNumber b.high
  pub low_number : IsNumber b.low
  pub close_number : IsNumber b.close
  pub positive : 0 < b.low
  pub open_below : b.open_price ≤ b.high
  pub close_below : b.close ≤ b.high
  pub open_above : b.low ≤ b.open_price
  pub close_above : b.low ≤ b.close

-- A bar that may follow one of the end `previous`, its volume aside.
pub record IsFit (period fetched previous : ℕ) (b : MinuteBar) : Type 0 where
  pub session : is_some (minute_session b.end period) ≡ true
  pub later : previous < b.end
  pub fetched_near : b.end ≤ fetched + 300
  pub weekday : is_weekend b.end ≡ false
  pub priced : IsPriced b
  pub settled : b.final ≡ true → b.end ≤ fetched

abbrev pub Fits : ℕ → ℕ → ℕ → List MinuteBar → Type 0
Fits period fetched previous [] = Unit
Fits period fetched previous (b ∷ bs) =
    IsFit period fetched previous b × Fits period fetched b.end bs

figure-IsNumber : (f : Float) → IsNumber (number_in (figure f))
figure-IsNumber (finite n) = elim (Bool-cases (leb n (10 ^ 18))) [
  | inl h ↦ rw h (ground (arith, h))
  | inr h ↦ rw h (omega arith)
]
figure-IsNumber (negative _) = omega arith
figure-IsNumber nan = omega arith
figure-IsNumber infinite = omega arith

bar-IsPriced :
    (fetched : ℕ) (b : MinuteBar)
    → IsNumber b.open_price
    → IsNumber b.high
    → IsNumber b.low
    → IsNumber b.close
    → ohlc_fits fetched b ≡ true
    → IsPriced b
unfolding ohlc_fits
bar-IsPriced fetched b p q r s o = record {
  open_number = p;
  high_number = q;
  low_number = r;
  close_number = s;
  positive = ground (arith, o);
  open_below = ground (arith, o);
  close_below = ground (arith, o);
  open_above = ground (arith, o);
  close_above = ground (arith, o);
}

bar-IsFit :
    (period fetched previous : ℕ) (b : MinuteBar)
    → time_fits period fetched previous b ≡ true
    → ohlc_fits fetched b ≡ true
    → IsPriced b
    → IsFit period fetched previous b
unfolding time_fits ohlc_fits
bar-IsFit period fetched previous b t o p = record {
  session = ground (arith, t);
  later = ground (arith, t);
  fetched_near = ground (arith, t);
  weekday = ground (arith, t);
  priced = p;
  settled = λ h. ground (arith, o, h);
}

IsFit-moved :
    (period fetched low high : ℕ) (b : MinuteBar)
    → low < b.end
    → IsFit period fetched high b
    → IsFit period fetched low b
IsFit-moved period fetched low high b h f = record {
  session = f.session;
  later = h;
  fetched_near = f.fetched_near;
  weekday = f.weekday;
  priced = f.priced;
  settled = f.settled;
}

pub check_minutes-Fits :
    (period fetched previous : ℕ) (rs : List RawMinute)
    → check_minutes period fetched previous rs ≡ none
    → Fits period fetched previous (read_minutes rs)
unfolding check_minutes
check_minutes-Fits period fetched previous [] h = tt
check_minutes-Fits period fetched previous (r ∷ rs) h =
    let t : time_fits period fetched previous (read_minute r) ≡ true = ground (arith, h) in
    let n : numbers_fit r ≡ true = ground (arith, h, t) in
    let o : ohlc_fits fetched (read_minute r) ≡ true = ground (arith, h, t, n) in
    let priced =
      bar-IsPriced fetched (read_minute r) (figure-IsNumber r.open_price) (figure-IsNumber r.high)
        (figure-IsNumber r.low) (figure-IsNumber r.close) o in
    (
      bar-IsFit period fetched previous (read_minute r) t o priced,
      check_minutes-Fits period fetched r.end rs (ground (arith, h, t, n, o)),
    )

pub Fits-lower :
    (period fetched low high : ℕ) (bs : List MinuteBar)
    → low ≤ high
    → Fits period fetched high bs
    → Fits period fetched low bs
Fits-lower period fetched low high [] h f = tt
Fits-lower period fetched low high (b ∷ bs) h (f, fs) =
    let later = f.later in (IsFit-moved period fetched low high b (omega (arith, h, later)) f, fs)

pub Fits-raise :
    (period fetched low high : ℕ) (bs : List MinuteBar)
    → StartsAfter high bs
    → Fits period fetched low bs
    → Fits period fetched high bs
Fits-raise period fetched low high [] h f = tt
Fits-raise period fetched low high (b ∷ bs) h (f, fs) =
    (IsFit-moved period fetched high low b h f, fs)

pub Fits-suffix :
    (period fetched low : ℕ) (ms bs : List MinuteBar)
    → Fits period fetched low (ms ++ bs)
    → Fits period fetched low bs
Fits-suffix period fetched low [] bs f = f
Fits-suffix period fetched low (m ∷ ms) bs (f, fs) =
    let after = Fits-suffix period fetched m.end ms bs fs in
    let later = f.later in Fits-lower period fetched low m.end bs (omega (arith, later)) after
