-- ===== src/Selection/Results.antt =====
-- What `Execute` checks of the report of an engine.
use job_time_stock_watcher.Base.{
  ℕ, ◌+◌, Bool, true, false, not, ◌&&◌, ◌||◌, List, [], ◌∷◌, Option, none, some, Text, codes,
  text_eq, length, is_empty, any, first_error, unless, leb, ◌==◌, if◌then◌else◌,
}
use job_time_stock_watcher.Chanlun.Input.{Float, finite, negative, nan, infinite}
use job_time_stock_watcher.Secondstage.{one, weight_of, validate_blend, StageError}
use job_time_stock_watcher.Selection.{
  Descriptor, Input, Report, FirstCandidate, FirstReport, SecondCandidate, SecondReport,
  ExecuteError, bad_blend, result_identity, selected_stock, ranking_stock, first_identity,
  first_count, first_not_empty, first_status, first_stock, second_without_first, second_identity,
  second_ranker, second_count, second_not_empty, second_status, second_stock, second_blend_score,
  second_percentile,
}
use job_time_stock_watcher.Selection.Inputs.{has_code}

abbrev pub same_flag : Bool → Bool → Bool
same_flag true b = b
same_flag false b = not b

unfoldable pub identity_fits : Descriptor → Input → Report → Bool
unfolding text_eq
identity_fits d i r =
    same_flag r.selection_enabled i.config.selection_enabled
    && (i.config.selection_enabled || is_empty r.selected)
    && not (is_empty r.id)
    && (r.version == 1 || r.version == 2 || r.version == 3)
    && text_eq r.as_of i.as_of
    && text_eq r.target i.target
    && text_eq r.adjust d.adjust
    && text_eq r.strategy d.id

-- The stocks are different, available, and none was seen.
unfoldable pub stocks_fit : List Text → List Text → List Text → Bool
unfolding text_eq
stocks_fit available seen [] = true
stocks_fit available seen (c ∷ cs) =
    has_code available c && not (has_code seen c) && stocks_fit available (c ∷ seen) cs

abbrev pub count_fits : ℕ → ℕ → Bool
count_fits n limit = not (n == 0) && leb n limit

unfoldable pub firsts_fit : List Text → List Text → List FirstCandidate → Bool
unfolding text_eq
firsts_fit available seen [] = true
firsts_fit available seen (c ∷ cs) =
    has_code available c.code
    && not (has_code seen c.code)
    && leb 1 c.rank
    && firsts_fit available (c.code ∷ seen) cs

unfoldable pub check_first : List Text → Input → Option FirstReport → Option ExecuteError
unfolding firsts_fit text_eq
check_first available i none = none
check_first available i (some f) =
    first_error
      (unless (f.version == 1 && text_eq f.as_of i.as_of && text_eq f.target i.target)
        first_identity)
      (first_error
        (if text_eq f.status (codes "ok")
          then unless (leb 1 f.budget && count_fits (length f.candidates) f.budget) first_count
          else if text_eq f.status (codes "empty") || text_eq f.status (codes "failed")
          then unless (is_empty f.candidates) first_not_empty
          else some first_status)
        (unless (firsts_fit available [] f.candidates) first_stock))

abbrev pub blend_score_fits : ℕ → Float → Bool
blend_score_fits eta (finite n) = leb n (one + 1)
blend_score_fits eta (negative n) = leb n (eta + 1)
blend_score_fits eta nan = false
blend_score_fits eta infinite = false

-- Not below 0 and not above 1, which a NaN is neither.
abbrev pub not_outside : Float → Bool
not_outside (finite n) = leb n one
not_outside (negative n) = false
not_outside nan = true
not_outside infinite = false

abbrev pub all_not_outside : List Float → Bool
all_not_outside [] = true
all_not_outside (f ∷ fs) = not_outside f && all_not_outside fs

abbrev pub first_codes : List FirstCandidate → List Text
first_codes [] = []
first_codes (c ∷ cs) = c.code ∷ first_codes cs

-- `count` is the number of all candidates.
unfoldable pub check_seconds :
    List Text → Bool → ℕ → ℕ → List ℕ → List Text → List SecondCandidate → Option ExecuteError
unfolding text_eq
check_seconds firsts blended eta count ranks seen [] = none
check_seconds firsts blended eta count ranks seen (c ∷ cs) =
    first_error
      (unless
        (leb 1 c.rank
          && leb c.rank count
          && not (any (λ r. r == c.rank) ranks)
          && not (has_code seen c.code)
          && has_code firsts c.code)
        second_stock)
      (first_error
        (unless
          (not blended || not_outside c.first_percentile && blend_score_fits eta c.blend_score)
          second_blend_score)
        (first_error (unless (all_not_outside c.percentiles) second_percentile)
          (check_seconds firsts blended eta count (c.rank ∷ ranks) (c.code ∷ seen) cs)))

abbrev pub is_blended : SecondReport → Bool
is_blended s = text_eq s.ranker (codes "blend_weighted_v1")

abbrev pub blend_error : Option StageError → Option ExecuteError
blend_error none = none
blend_error (some e) = some (bad_blend e)

abbrev pub check_second_head : Input → SecondReport → Option ExecuteError
check_second_head i s =
    first_error
      (unless (s.version == 1 && text_eq s.as_of i.as_of && text_eq s.target i.target)
        second_identity)
      (first_error (unless (is_empty s.ranker || is_blended s) second_ranker) (
        first_error (if is_blended s then blend_error (validate_blend s.blend) else none) (
          if text_eq s.status (codes "ok")
          then unless (leb 1 s.top_n && leb s.top_n 100 && count_fits (length s.candidates) s.top_n)
              second_count
          else if text_eq s.status (codes "empty") || text_eq s.status (codes "failed")
          then unless (is_empty s.candidates) second_not_empty
          else some second_status)))

unfoldable pub check_second : Input → Option FirstReport → Option SecondReport → Option ExecuteError
unfolding check_seconds validate_blend text_eq
check_second i first none = none
check_second i none (some s) = some second_without_first
check_second i (some f) (some s) = first_error (check_second_head i s) (
    check_seconds (first_codes f.candidates) (is_blended s) (weight_of s.blend.risk_eta)
      (length s.candidates) [] [] s.candidates)

unfoldable pub check_report : Descriptor → Input → List Text → Report → Option ExecuteError
unfolding identity_fits stocks_fit check_first check_second
check_report d i available r = first_error (unless (identity_fits d i r) result_identity) (
    first_error (unless (stocks_fit available [] r.selected) selected_stock) (
      first_error (unless (stocks_fit available [] r.ranking) ranking_stock) (
        first_error (check_first available i r.first_stage)
          (check_second i r.first_stage r.second_stage))))
