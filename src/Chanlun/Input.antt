-- ===== src/Chanlun/Input.antt =====
-- internal/chanlun/chanlun.go: `validate`. Its input holds any floats; what it accepts are finite
-- numbers that are not negative, which the other modules take as natural numbers.
pub mod Accepting
use job_time_stock_watcher.Base.{
  ℕ, Bool, true, false, not, ◌&&◌, ◌||◌, ◌⊎◌, inl, inr, List, [], ◌∷◌, Option, none, some, ltb,
  ◌==◌, if◌then◌else◌, min, max,
}
use job_time_stock_watcher.Chanlun.{Bar}

pub data Float : Type 0 where
  finite : ℕ → Float
  negative : ℕ → Float
  nan : Float
  infinite : Float

pub record RawBar : Type 0 where
  pub time : ℕ
  pub open_price : Float
  pub high : Float
  pub low : Float
  pub close : Float
  pub volume : Float
  pub raw_bars : ℕ

pub data Invalid : Type 0 where
  invalid_number invalid_ohlc unordered short_stroke : Invalid

abbrev pub value : Float → Option ℕ
value (finite n) = some n
value (negative _) = none
value nan = none
value infinite = none

-- The five numbers of a bar, if none is refused.
unfoldable pub read_bar : RawBar → Option Bar
read_bar r = elim (value r.open_price) [
  | none ↦ none
  | some o ↦ elim (value r.high) [
    | none ↦ none
    | some h ↦ elim (value r.low) [
      | none ↦ none
      | some l ↦ elim (value r.close) [
        | none ↦ none
        | some c ↦ elim (value r.volume) [
          | none ↦ none
          | some v ↦ some (record {
            time = r.time;
            open_price = o;
            high = h;
            low = l;
            close = c;
            volume = v;
            raw_bars = r.raw_bars;
          })
        ]
      ]
    ]
  ]
]

abbrev pub bad_ohlc : Bar → Bool
bad_ohlc b =
    b.low == 0 || ltb b.high (max b.open_price b.close) || ltb (min b.open_price b.close) b.low

-- One round of the loop, given what the rounds after it return.
abbrev pub round : ℕ → Option Bar → List Bar ⊎ Invalid → List Bar ⊎ Invalid
round previous none rest = inr invalid_number
round previous (some b) rest =
    if bad_ohlc b
    then inr invalid_ohlc
    else if not (previous == 0) && not (ltb previous b.time)
    then inr unordered
    else elim rest [ inl bs ↦ inl (b ∷ bs) | inr x ↦ inr x ]

-- The loop: `previous` is the last time that it kept, and `first` holds in the first round.
unfoldable pub validate_from : Bool → ℕ → List RawBar → List Bar ⊎ Invalid
unfolding read_bar
validate_from first previous [] = inl []
validate_from first previous (r ∷ rs) =
    let rest = validate_from false (if first || ltb previous r.time then r.time else previous) rs in
    round previous (read_bar r) rest

unfoldable pub validate_bars : List RawBar → List Bar ⊎ Invalid
unfolding validate_from
validate_bars rs = validate_from true 0 rs
