-- ===== src/Selection/Contract.antt =====
-- What holds of an input that the checks of `Execute` let pass.
use job_time_stock_watcher.Base.{
  ℕ, Bool, true, false, not, ◌&&◌, List, [], ◌∷◌, ◌++◌, Option, none, some, is_some, Text, codes,
  text_eq, text_eq→≡, any, first_error, unless, ◌==◌, In, All, ◌≡◌, refl, sym, arith,
}
use job_time_stock_watcher.Market.Histories.{DayHistory, validate_daily}
use job_time_stock_watcher.Market.Minutes.{MinuteHistory, validate_minutes}
use job_time_stock_watcher.Selection.{
  Descriptor, Input, bad_minutes, mixed_snapshot, duplicate_period, minutes_not_final,
}
use job_time_stock_watcher.Selection.Inputs.{
  has_code, codes_of, identities_fit, histories_fit, check_minute_set, check_input, periods_of,
  fits_first, find_code, find_period, bars_final, pair_fits, pairs_fit,
}
use job_time_stock_watcher.Selection.Results.{stocks_fit}
use job_time_stock_watcher.Selection.Sets.{has_code-In, IsSelection, stocks_fit-IsSelection}

pub first_error-none {ℓ} :
    {A : Type ℓ} (a b : Option A) → first_error a b ≡ none → (a ≡ none) × (b ≡ none)
first_error-none none b h = (refl, h)
first_error-none (some e) b h = let impossible : some e ≡ none = h in cc

pub unless-none {ℓ} : {A : Type ℓ} (b : Bool) (e : A) → unless b e ≡ none → b ≡ true
unless-none true e h = refl
unless-none false e h = let impossible : some e ≡ none = h in cc

not_some-none {ℓ} : {A : Type ℓ} (o : Option A) → is_some o ≡ false → o ≡ none
not_some-none none h = refl
not_some-none (some a) h = let impossible : true ≡ false = h in cc

pub and-true : (a b : Bool) → (a && b) ≡ true → (a ≡ true) × (b ≡ true)
and-true true b h = (refl, h)
and-true false b h = let impossible : false ≡ true = h in cc

pub not-false : (b : Bool) → not b ≡ true → b ≡ false
not-false true h = sym h
not-false false h = refl

identities_fit-stocks_fit :
    (allowed seen : List Text) (adjust : Text) (hs : List DayHistory)
    → identities_fit allowed adjust seen hs ≡ true
    → stocks_fit allowed seen (codes_of hs) ≡ true
unfolding identities_fit stocks_fit
identities_fit-stocks_fit allowed seen adjust [] h = refl
identities_fit-stocks_fit allowed seen adjust (d ∷ hs) h =
    let ih = identities_fit-stocks_fit allowed (d.code ∷ seen) adjust hs (ground (arith, h)) in
    ground (arith, h, ih)

abbrev pub IsHistory : Text → DayHistory → Type 0
IsHistory as_of h = (h.as_of ≡ as_of) × (validate_daily h ≡ none)

histories_fit-All :
    (as_of : Text) (hs : List DayHistory) → histories_fit as_of hs ≡ true → All (IsHistory as_of) hs
unfolding histories_fit
histories_fit-All as_of [] h = tt
histories_fit-All as_of (d ∷ hs) h =
    let (head, rest) =
      and-true (text_eq d.as_of as_of && not (is_some (validate_daily d))) (histories_fit as_of hs)
        h in
    let (same, valid) = and-true (text_eq d.as_of as_of) (not (is_some (validate_daily d))) head in
    (
      (text_eq→≡ d.as_of as_of same, not_some-none (validate_daily d) (not-false _ valid)),
      histories_fit-All as_of hs rest,
    )

abbrev pub IsMinutes : List Text → Text → MinuteHistory → Type 0
IsMinutes available as_of h =
    In h.code available × (validate_minutes h ≡ none) × (bars_final as_of h.bars ≡ true)

abbrev pub IsPaired : List MinuteHistory → MinuteHistory → Type 0
IsPaired hs h = pair_fits (find_period h.code 5 hs) (find_period h.code 30 hs) ≡ true

pairs_fit-All :
    (whole hs : List MinuteHistory) → pairs_fit whole hs ≡ true → All (IsPaired whole) hs
unfolding pairs_fit
pairs_fit-All whole [] h = tt
pairs_fit-All whole (m ∷ hs) h =
    let (pair, rest) =
      and-true (pair_fits (find_period m.code 5 whole) (find_period m.code 30 whole))
        (pairs_fit whole hs) h in
    (pair, pairs_fit-All whole hs rest)

check_minute_set-All :
    (available : List Text) (periods : List ℕ) (as_of : Text) (seen hs : List MinuteHistory)
    → check_minute_set available periods as_of seen hs ≡ none
    → All (IsMinutes available as_of) hs
unfolding check_minute_set
check_minute_set-All available periods as_of seen [] h = tt
check_minute_set-All available periods as_of seen (m ∷ hs) h =
    let fits =
      has_code available m.code
      && any (λ p. p == m.period) periods
      && not (is_some (validate_minutes m)) in
    let (head, rest) = first_error-none (unless fits bad_minutes) _ h in
    let (_, rest) =
      first_error-none (unless (fits_first (find_code m.code seen) m) mixed_snapshot) _ rest in
    let (_, rest) =
      first_error-none (unless (not (is_some (find_period m.code m.period seen))) duplicate_period)
        _ rest in
    let (final, rest) =
      first_error-none (unless (bars_final as_of m.bars) minutes_not_final) _ rest in
    let (front, valid) =
      and-true (has_code available m.code && any (λ p. p == m.period) periods) _
        (unless-none fits bad_minutes head) in
    let (here, _) = and-true (has_code available m.code) _ front in
    (
      (
        has_code-In available m.code here,
        not_some-none (validate_minutes m) (not-false _ valid),
        unless-none _ minutes_not_final final,
      ),
      check_minute_set-All available periods as_of (seen ++ (m ∷ [])) hs rest,
    )

-- What the engine gets.
pub record IsInput (d : Descriptor) (i frozen : Input) : Type 0 where
  pub histories : IsSelection i.config.stocks [] (codes_of frozen.histories)
  pub executions : IsSelection i.config.stocks [] (codes_of frozen.raw)
  pub valid : All (IsHistory i.as_of) (frozen.histories ++ frozen.raw)
  pub minutes : All (IsMinutes (codes_of frozen.histories) i.as_of) frozen.minutes
  pub paired : All (IsPaired frozen.minutes) frozen.minutes

pub check_input-IsInput :
    (d : Descriptor) (i frozen : Input) → check_input d i frozen ≡ none → IsInput d i frozen
unfolding check_input
check_input-IsInput d i frozen h =
    let (identities, rest) = first_error-none _ _ h in
    let (raw, rest) = first_error-none _ _ rest in
    let (_, rest) = first_error-none _ _ rest in
    let (valid, rest) = first_error-none _ _ rest in
    let (minutes, pairs) = first_error-none _ _ rest in
    let available = codes_of frozen.histories in
    record {
      histories = stocks_fit-IsSelection i.config.stocks [] available (
          identities_fit-stocks_fit i.config.stocks [] d.adjust frozen.histories
            (unless-none _ _ identities));
      executions = stocks_fit-IsSelection i.config.stocks [] (codes_of frozen.raw) (
          identities_fit-stocks_fit i.config.stocks [] (codes "none") frozen.raw
            (unless-none _ _ raw));
      valid = histories_fit-All i.as_of (frozen.histories ++ frozen.raw) (unless-none _ _ valid);
      minutes = check_minute_set-All available (periods_of d) i.as_of [] frozen.minutes minutes;
      paired = pairs_fit-All frozen.minutes frozen.minutes (unless-none _ _ pairs);
    }
