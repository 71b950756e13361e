-- ===== src/Strategy/Chan/Runs.antt =====
-- The bars that the Chan signal hands to `Analyze` are ones that it accepts.
use job_time_stock_watcher.Base.{
  ℕ, ◌≤◌, ◌<◌, Bool, true, false, ◌⊎◌, inl, inr, List, [], ◌∷◌, ◌++◌, keep, ◌==◌, All, Adjacent,
  ◌≡◌, refl, sym, ap, ◌∙◌, subst, Bool-cases, arith,
}
use job_time_stock_watcher.Chanlun.{Bar}
use job_time_stock_watcher.Chanlun.Input.{read_bar, validate_bars}
use job_time_stock_watcher.Chanlun.Input.Accepting.{Reads, IsOhlc, MayFollow, validate_bars_iff}
use job_time_stock_watcher.Market.Minutes.{MinuteBar, minute_period}
use job_time_stock_watcher.Market.Minutes.Grouping.{group_end, aggregate_minutes}
use job_time_stock_watcher.Market.Minutes.Gathers.{StartsAfter}
use job_time_stock_watcher.Market.Minutes.Sessions.{IsLong, group_end-IsGroupEnd}
use job_time_stock_watcher.Market.Minutes.Aggregates.{
  Groups, done, skip, take, drop, IsGroup, gathered, emitted-IsGroup, aggregate_minutes-All,
}
use job_time_stock_watcher.Market.Minutes.Accepted.{IsPriced, Fits}
use job_time_stock_watcher.Market.Minutes.Fitting.{bar-IsPriced, some-injective}
use job_time_stock_watcher.Strategy.Chan.{chan_bars}

-- Bars of fitting prices, each later than the one before it.
abbrev pub Runs : ℕ → List MinuteBar → Type 0
Runs previous [] = Unit
Runs previous (b ∷ bs) = (previous < b.end) × IsPriced b × Runs b.end bs

pub Fits-Runs :
    (period fetched previous : ℕ) (bs : List MinuteBar)
    → Fits period fetched previous bs
    → Runs previous bs
Fits-Runs period fetched previous [] f = tt
Fits-Runs period fetched previous (b ∷ bs) (f, fs) =
    (f.later, f.priced, Fits-Runs period fetched b.end bs fs)

Runs-lower : (low high : ℕ) (bs : List MinuteBar) → low ≤ high → Runs high bs → Runs low bs
Runs-lower low high [] h r = tt
Runs-lower low high (b ∷ bs) h (later, priced, rest) = (omega (arith, h, later), priced, rest)

Runs-raise : (low high : ℕ) (bs : List MinuteBar) → StartsAfter high bs → Runs low bs → Runs high bs
Runs-raise low high [] h r = tt
Runs-raise low high (b ∷ bs) h (later, priced, rest) = (h, priced, rest)

Runs-suffix : (low : ℕ) (ms bs : List MinuteBar) → Runs low (ms ++ bs) → Runs low bs
Runs-suffix low [] bs r = r
Runs-suffix low (m ∷ ms) bs (later, priced, rest) =
    Runs-lower low m.end bs (omega (arith, later)) (Runs-suffix m.end ms bs rest)

Runs-IsPriced : (low : ℕ) (ms bs : List MinuteBar) → Runs low (ms ++ bs) → All IsPriced ms
Runs-IsPriced low [] bs r = tt
Runs-IsPriced low (m ∷ ms) bs (later, priced, rest) = (priced, Runs-IsPriced m.end ms bs rest)

pub Runs-keep :
    (p : MinuteBar → Bool) (low : ℕ) (bs : List MinuteBar) → Runs low bs → Runs low (keep p bs)
Runs-keep p low [] r = tt
Runs-keep p low (b ∷ bs) (later, priced, rest) = elim (Bool-cases (p b)) [
  | inl h ↦ rw h (later, priced, Runs-keep p b.end bs rest)
  | inr h ↦
      rw h (Runs-lower low b.end (keep p bs) (omega (arith, later)) (Runs-keep p b.end bs rest))
]

Groups-Runs :
    (period observed low : ℕ) {bars out : List MinuteBar}
    → IsLong period
    → Groups period observed bars out
    → Runs low bars
    → Runs low out
Groups-Runs period observed low long done r = tt
Groups-Runs period observed low long (skip first bs out n more) (later, _, rest) =
    Groups-Runs period observed low long more
      (Runs-lower low first.end bs (omega (arith, later)) rest)
Groups-Runs period observed low long (drop first bs out start g session same e more) r =
    let k = gathered period observed first bs start g session same in
    let whole = subst (λ xs. Runs low (first ∷ xs)) k.split r in
    Groups-Runs period observed low long more (Runs-suffix low (first ∷ k.members) g.rest whole)
Groups-Runs period observed low long (take first bs out start g a session same e is more) r =
    let k = gathered period observed first bs start g session same in
    let group =
      subst (IsGroup period observed first k.members g.rest) (sym is)
        (emitted-IsGroup period observed first bs start g session same e) in
    let (later, priced, rest) = subst (λ xs. Runs low (first ∷ xs)) k.split r in
    let here : group.start ≡ start = some-injective (sym group.session ∙ session) in
    let ends = group.ends ∙ ap (λ s. group_end s period first.end) here in
    let after = (group_end-IsGroupEnd start first.end period session long).later in
    let stops = subst (λ e. StartsAfter e g.rest) (sym ends) k.stops in
    let tail = Runs-suffix first.end k.members g.rest rest in
    (
      omega (arith, later, after, ends),
      bar-IsPriced first k.members a group.bar
          (priced, Runs-IsPriced first.end k.members g.rest rest),
      Groups-Runs period observed a.end long more (Runs-raise first.end a.end g.rest stops tail),
    )

pub aggregate_minutes-Runs :
    (bars : List MinuteBar) (period observed low : ℕ)
    → (period ≡ 5) ⊎ IsLong period
    → Runs low bars
    → Runs low (aggregate_minutes bars period observed)
aggregate_minutes-Runs bars period observed low (inl e) r =
    subst (λ p. Runs low (aggregate_minutes bars p observed)) (sym e)
      (unfold aggregate_minutes in r)
aggregate_minutes-Runs bars period observed low (inr long) r =
    let supported : minute_period period ≡ true = elim long [
      | inl e ↦ ground (arith, e)
      | inr (inl e) ↦ ground (arith, e)
      | inr (inr e) ↦ ground (arith, e)
    ] in
    let not_five : (period == 5) ≡ false = elim long [
      | inl e ↦ ground (arith, e)
      | inr (inl e) ↦ ground (arith, e)
      | inr (inr e) ↦ ground (arith, e)
    ] in
    let (groups, _) = aggregate_minutes-All bars period observed supported not_five in
    Groups-Runs period observed low long groups r

abbrev read_chan : MinuteBar → Bar
read_chan b = record {
  time = b.end;
  open_price = b.open_price;
  high = b.high;
  low = b.low;
  close = b.close;
  volume = b.volume;
  raw_bars = 1;
}

abbrev pub read_chans : List MinuteBar → List Bar
read_chans [] = []
read_chans (b ∷ bs) = read_chan b ∷ read_chans bs

chan_bars-Reads : (bs : List MinuteBar) → Reads (chan_bars bs) (read_chans bs)
unfolding read_bar
chan_bars-Reads [] = tt
chan_bars-Reads (b ∷ bs) = (refl, chan_bars-Reads bs)

Runs-IsOhlc : (low : ℕ) (bs : List MinuteBar) → Runs low bs → All IsOhlc (read_chans bs)
Runs-IsOhlc low [] r = tt
Runs-IsOhlc low (b ∷ bs) (_, p, rest) = (
  (p.positive, p.open_below, p.close_below, p.open_above, p.close_above),
  Runs-IsOhlc b.end bs rest,
)

Runs-ordered : (low : ℕ) (bs : List MinuteBar) → Runs low bs → Adjacent MayFollow (read_chans bs)
Runs-ordered low [] r = tt
Runs-ordered low (b ∷ []) r = tt
Runs-ordered low (b ∷ c ∷ bs) (_, _, (later, priced, rest)) =
    (inr later, Runs-ordered b.end (c ∷ bs) (later, priced, rest))

pub Runs-validate_bars :
    (low : ℕ) (bs : List MinuteBar)
    → Runs low bs
    → validate_bars (chan_bars bs) ≡ inl (read_chans bs)
Runs-validate_bars low bs r =
    (validate_bars_iff (chan_bars bs) (read_chans bs)).1
      (chan_bars-Reads bs, Runs-IsOhlc low bs r, Runs-ordered low bs r)
