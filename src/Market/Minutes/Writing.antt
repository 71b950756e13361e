-- ===== src/Market/Minutes/Writing.antt =====
-- Accepted bars written as a history again, and compared with themselves.
use job_time_stock_watcher.Base.{
  ℕ, suc, ◌^◌, ◌≤◌, true, not, ◌&&◌, inl, inr, List, [], ◌∷◌, none, some, length, length-append,
  ltb, leb, ◌==◌, All, ◌≡◌, refl, ap, ◌∙◌, Bool-cases, arith,
}
use job_time_stock_watcher.Chanlun.Input.{finite}
use job_time_stock_watcher.Market.Minutes.{
  RawMinute, MinuteBar, figure, number_in, numbers_fit, read_minute, read_minutes, time_fits,
  ohlc_fits, check_minutes,
}
use job_time_stock_watcher.Market.Minutes.Grouping.{
  near, bool_eq, same_bar, same_bars, compare_pair, final_bars,
}
use job_time_stock_watcher.Market.Minutes.Aggregates.{Groups, done, skip, take, drop, gathered}
use job_time_stock_watcher.Market.Minutes.Accepted.{IsNumber, IsPriced, IsFit, Fits}

abbrev pub write_minute : MinuteBar → RawMinute
write_minute b = record {
  end = b.end;
  open_price = finite b.open_price;
  high = finite b.high;
  low = finite b.low;
  close = finite b.close;
  volume = finite b.volume;
  final = b.final;
}

abbrev pub write_minutes : List MinuteBar → List RawMinute
write_minutes [] = []
write_minutes (b ∷ bs) = write_minute b ∷ write_minutes bs

abbrev pub IsVolume : MinuteBar → Type 0
IsVolume b = IsNumber b.volume

figure-finite : (n : ℕ) → IsNumber n → figure (finite n) ≡ some n
figure-finite n h = let k : leb n (10 ^ 18) ≡ true = ground (arith, h) in rw k refl

number-finite : (n : ℕ) → IsNumber n → number_in (figure (finite n)) ≡ n
number-finite n h = ap number_in (figure-finite n h)

read_minute-write_minute :
    (b : MinuteBar) → IsPriced b → IsVolume b → read_minute (write_minute b) ≡ b
read_minute-write_minute b p v =
    rw
      (
        number-finite b.open_price p.open_number,
        number-finite b.high p.high_number,
        number-finite b.low p.low_number,
        number-finite b.close p.close_number,
        number-finite b.volume v,
      )
      refl

numbers_fit-write_minute :
    (b : MinuteBar) → IsPriced b → IsVolume b → numbers_fit (write_minute b) ≡ true
numbers_fit-write_minute b p v =
    rw
      (
        figure-finite b.open_price p.open_number,
        figure-finite b.high p.high_number,
        figure-finite b.low p.low_number,
        figure-finite b.close p.close_number,
        figure-finite b.volume v,
      )
      refl

fit-time :
    (period fetched previous : ℕ) (b : MinuteBar)
    → IsFit period fetched previous b
    → time_fits period fetched previous b ≡ true
unfolding time_fits
fit-time period fetched previous b f =
    let session = f.session in
    let later = f.later in
    let near = f.fetched_near in
    let weekday = f.weekday in ground (arith, session, later, near, weekday)

fit-ohlc :
    (period fetched previous : ℕ) (b : MinuteBar)
    → IsFit period fetched previous b
    → ohlc_fits fetched b ≡ true
unfolding ohlc_fits
fit-ohlc period fetched previous b f =
    let p = f.priced in
    let positive = p.positive in
    let high_open = p.open_below in
    let high_close = p.close_below in
    let low_open = p.open_above in
    let low_close = p.close_above in
    let settled : not (b.final && ltb fetched b.end) ≡ true = elim (Bool-cases b.final) [
      | inl h ↦ let early = f.settled h in ground (arith, h, early)
      | inr h ↦ ground (arith, h)
    ] in
    ground (arith, positive, high_open, high_close, low_open, low_close, settled)

pub Fits-read_minutes :
    (period fetched previous : ℕ) (bs : List MinuteBar)
    → All IsVolume bs
    → Fits period fetched previous bs
    → read_minutes (write_minutes bs) ≡ bs
Fits-read_minutes period fetched previous [] v f = refl
Fits-read_minutes period fetched previous (b ∷ bs) (v, vs) (f, fs) =
    rw (read_minute-write_minute b f.priced v, Fits-read_minutes period fetched b.end bs vs fs) refl

pub Fits-check_minutes :
    (period fetched previous : ℕ) (bs : List MinuteBar)
    → All IsVolume bs
    → Fits period fetched previous bs
    → check_minutes period fetched previous (write_minutes bs) ≡ none
unfolding check_minutes
Fits-check_minutes period fetched previous [] v f = refl
Fits-check_minutes period fetched previous (b ∷ bs) (v, vs) (f, fs) =
    let read = read_minute-write_minute b f.priced v in
    let time = ap (time_fits period fetched previous) read ∙ fit-time period fetched previous b f in
    let ohlc = ap (ohlc_fits fetched) read ∙ fit-ohlc period fetched previous b f in
    let numbers = numbers_fit-write_minute b f.priced v in
    let rest = Fits-check_minutes period fetched b.end bs vs fs in
    ground (arith, time, ohlc, numbers, rest)

pub Groups-length :
    (period observed : ℕ) {bars out : List MinuteBar}
    → Groups period observed bars out
    → length out ≤ length bars
Groups-length period observed done = omega arith
Groups-length period observed (skip first bs out n more) =
    let ih = Groups-length period observed more in omega (arith, ih)
Groups-length period observed (take first bs out start g a session same e is more) =
    let k = gathered period observed first bs start g session same in
    let parts = ap length k.split ∙ length-append k.members g.rest in
    let ih = Groups-length period observed more in omega (arith, parts, ih)
Groups-length period observed (drop first bs out start g session same e more) =
    let k = gathered period observed first bs start g session same in
    let parts = ap length k.split ∙ length-append k.members g.rest in
    let ih = Groups-length period observed more in omega (arith, parts, ih)

pub final_bars-length : (bs : List MinuteBar) → length (final_bars bs) ≤ length bs
final_bars-length [] = omega arith
final_bars-length (b ∷ bs) =
    let ih = final_bars-length bs in
    elim (Bool-cases b.final) [
      | inl h ↦ rw h (omega (arith, ih))
      | inr h ↦ rw h (omega (arith, ih))
    ]

pub write_minutes-length : (bs : List MinuteBar) → length (write_minutes bs) ≡ length bs
write_minutes-length [] = refl
write_minutes-length (b ∷ bs) = ap suc (write_minutes-length bs)

pub read_minutes-length : (bs : List RawMinute) → length (read_minutes bs) ≡ length bs
read_minutes-length [] = refl
read_minutes-length (b ∷ bs) = ap suc (read_minutes-length bs)

near_refl : (n : ℕ) → near n n ≡ true
near_refl n = ground arith

same_bar_refl : (b : MinuteBar) → same_bar b b ≡ true
unfolding same_bar
same_bar_refl b =
    let ends : (b.end == b.end) ≡ true = ground arith in
    let finals : bool_eq b.final b.final ≡ true = elim (Bool-cases b.final) [
      | inl h ↦ rw h refl
      | inr h ↦ rw h refl
    ] in
    rw
      (
        ends,
        finals,
        near_refl b.open_price,
        near_refl b.high,
        near_refl b.low,
        near_refl b.close,
        near_refl b.volume,
      )
      refl

same_bars_refl : (bs : List MinuteBar) → same_bars bs bs ≡ true
same_bars_refl [] = refl
same_bars_refl (b ∷ bs) = rw (same_bar_refl b, same_bars_refl bs) refl

pub compare_pair_refl : (bs : List MinuteBar) → compare_pair bs bs ≡ none
unfolding compare_pair
compare_pair_refl bs =
    let lengths : (length bs == length bs) ≡ true = ground arith in
    rw (lengths, same_bars_refl bs) refl
