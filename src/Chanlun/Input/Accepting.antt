-- ===== src/Chanlun/Input/Accepting.antt =====
-- Which bars `validate` accepts.
use job_time_stock_watcher.Base.{
  ℕ, ◌<◌, ◌≤◌, Bool, true, false, not, ◌&&◌, ◌||◌, ◌⊎◌, inl, inr, List, [], ◌∷◌, Option, none, some,
  ◌≡◌, refl, sym, ◌∙◌, subst, ◌↔◌, arith, ltb, ◌==◌, if◌then◌else◌, All, Adjacent,
}
use job_time_stock_watcher.Chanlun.{Bar}
use job_time_stock_watcher.Chanlun.Input.{
  RawBar, Invalid, read_bar, round, bad_ohlc, validate_from, validate_bars,
}

-- Every number of the raw bars is finite and not negative, and the bars hold them.
abbrev pub Reads : List RawBar → List Bar → Type 0
Reads [] [] = Unit
Reads [] (_ ∷ _) = false ≡ true
Reads (_ ∷ _) [] = false ≡ true
Reads (r ∷ rs) (b ∷ bs) = (read_bar r ≡ some b) × Reads rs bs

-- The prices of a bar fit together.
abbrev pub IsOhlc : Bar → Type 0
IsOhlc b =
    (0 < b.low)
    × (b.open_price ≤ b.high)
    × (b.close ≤ b.high)
    × (b.low ≤ b.open_price)
    × (b.low ≤ b.close)

-- The second bar is later, or the first has the zero time.
abbrev pub MayFollow : Bar → Bar → Type 0
MayFollow a b = (a.time ≡ 0) ⊎ (a.time < b.time)

abbrev Joins : ℕ → List Bar → Type 0
Joins previous [] = Unit
Joins previous (b ∷ _) = (previous ≡ 0) ⊎ (previous < b.time)

abbrev Accepts : ℕ → List RawBar → List Bar → Type 0
Accepts previous rs bs = Reads rs bs × All IsOhlc bs × Joins previous bs × Adjacent MayFollow bs

Adjacent-join :
    (b : Bar) (bs : List Bar)
    → Joins b.time bs
    → Adjacent MayFollow bs
    → Adjacent MayFollow (b ∷ bs)
Adjacent-join b [] h k = tt
Adjacent-join b (c ∷ bs) h k = (h, k)

Adjacent-split :
    (b : Bar) (bs : List Bar)
    → Adjacent MayFollow (b ∷ bs)
    → Joins b.time bs × Adjacent MayFollow bs
Adjacent-split b [] h = (tt, tt)
Adjacent-split b (c ∷ bs) h = (h.0, h.1)

-- The time that a round keeps, unless it is refused.
kept_time :
    (first : Bool) (previous t : ℕ)
    → (not (previous == 0) && not (ltb previous t)) ≡ false
    → (if first || ltb previous t then t else previous) ≡ t
kept_time first previous t h = ground arith

read_bar_time : (r : RawBar) (b : Bar) → read_bar r ≡ some b → b.time ≡ r.time
unfolding read_bar
read_bar_time r b h = ground (arith, h)

-- A round that is not refused.
record Kept (previous : ℕ) (read : Option Bar) (rest : List Bar ⊎ Invalid) (bs : List Bar)
    : Type 0 where
  bar : Bar
  more : List Bar
  read_as : read ≡ some bar
  ohlc : IsOhlc bar
  joins : (previous ≡ 0) ⊎ (previous < bar.time)
  later : (not (previous == 0) && not (ltb previous bar.time)) ≡ false
  rest_as : rest ≡ inl more
  listed : bs ≡ bar ∷ more

round-Kept :
    (previous : ℕ) (read : Option Bar) (rest : List Bar ⊎ Invalid) (bs : List Bar)
    → round previous read rest ≡ inl bs
    → Kept previous read rest bs
round-Kept previous none rest bs h = ground (arith, h)
round-Kept previous (some b) (inr x) bs h = ground (arith, h)
round-Kept previous (some b) (inl more) bs h = record {
  bar = b;
  more = more;
  read_as = refl;
  ohlc = ground (arith, h);
  joins = ground (arith, h);
  later = ground (arith, h);
  rest_as = refl;
  listed = ground (arith, h);
}

validate_from-Accepts :
    (first : Bool) (previous : ℕ) (rs : List RawBar) (bs : List Bar)
    → validate_from first previous rs ≡ inl bs
    → Accepts previous rs bs
unfolding validate_from
validate_from-Accepts first previous [] [] h = (tt, tt, tt, tt)
validate_from-Accepts first previous [] (b ∷ bs) h = ground (arith, h)
validate_from-Accepts first previous (r ∷ rs) bs h =
    let next = if first || ltb previous r.time then r.time else previous in
    let k = round-Kept previous (read_bar r) (validate_from false next rs) bs h in
    let t = read_bar_time r k.bar k.read_as in
    let kept : next ≡ k.bar.time =
      kept_time first previous r.time
        (subst (λ x. (not (previous == 0) && not (ltb previous x)) ≡ false) t k.later)
      ∙ sym t in
    let (reads, ohlc, joins, ordered) = validate_from-Accepts false next rs k.more k.rest_as in
    subst (Accepts previous (r ∷ rs)) (sym k.listed) (
      (k.read_as, reads),
      (k.ohlc, ohlc),
      k.joins,
      Adjacent-join k.bar k.more (subst (λ p. Joins p k.more) kept joins) ordered,
    )

Accepts-validate_from :
    (first : Bool) (previous : ℕ) (rs : List RawBar) (bs : List Bar)
    → Accepts previous rs bs
    → validate_from first previous rs ≡ inl bs
unfolding validate_from
Accepts-validate_from first previous [] [] h = refl
Accepts-validate_from first previous [] (b ∷ bs) h = ground (arith, h)
Accepts-validate_from first previous (r ∷ rs) [] h = ground (arith, h)
Accepts-validate_from first previous (r ∷ rs) (b ∷ bs) h =
    let (reads, ohlc, joins, ordered) = h in
    let next = if first || ltb previous r.time then r.time else previous in
    let t = read_bar_time r b reads.0 in
    let later : (not (previous == 0) && not (ltb previous b.time)) ≡ false =
      ground (arith, joins) in
    let kept : next ≡ b.time =
      kept_time first previous r.time
        (subst (λ x. (not (previous == 0) && not (ltb previous x)) ≡ false) t later)
      ∙ sym t in
    let good : bad_ohlc b ≡ false = ground (arith, ohlc) in
    let (j, o) = Adjacent-split b bs ordered in
    let rest =
      Accepts-validate_from false next rs bs
        (reads.1, ohlc.1, subst (λ p. Joins p bs) (sym kept) j, o) in
    rw reads.0 (rw good (rw later (rw rest refl)))

Joins-zero : (bs : List Bar) → Joins 0 bs
Joins-zero [] = tt
Joins-zero (b ∷ bs) = inl refl

-- `validate` accepts a list of bars exactly when all their numbers are finite and not negative, the
-- prices of each fit together, and each is later than the one before it or the one before it has the
-- zero time.
pub validate_bars_iff :
    (rs : List RawBar) (bs : List Bar)
    → (validate_bars rs ≡ inl bs) ↔ (Reads rs bs × All IsOhlc bs × Adjacent MayFollow bs)
unfolding validate_bars
validate_bars_iff rs bs = (
  λ h.
      let (reads, ohlc, _, ordered) = validate_from-Accepts true 0 rs bs h in
      (reads, ohlc, ordered),
  λ h. Accepts-validate_from true 0 rs bs (h.0, h.1, Joins-zero bs, h.2),
)
