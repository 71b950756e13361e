-- ===== src/Secondstage.antt =====
-- internal/secondstage/analyze.go and types.go: the inputs of the second stage and their checks. Weights,
-- scores and percentiles are numbers of billionths, so that sums are exact, or a float that is none.
-- What an error's message adds to its kind is left out.
use job_time_stock_watcher.Base.{
  ℕ, ◌+◌, ◌^◌, Bool, true, false, not, ◌&&◌, ◌||◌, List, [], ◌∷◌, Option, none, some, Text, codes,
  text_eq, Map, length, is_empty, any, all_blank, ℤ, pos, is_neg, ltb_ℤ, first_error, unless, leb,
  ltb, ◌==◌, if◌then◌else◌,
}
use job_time_stock_watcher.Chanlun.Input.{Float, finite, negative, nan, infinite}

pub record ModelScore : Type 0 where
  pub adjacent15 : Float
  pub full15_top12 : Float

pub record ModelInput : Type 0 where
  pub name : Text
  pub status : Text
  pub scores : Map ModelScore

pub record BlendWeight : Type 0 where
  pub name : Text
  pub weight : Float

pub record BlendPlan : Type 0 where
  pub id : Text
  pub first_stage_weight : Float
  pub models : List BlendWeight
  pub group_size : ℤ
  pub calibration : Text
  pub calibration_param : Float
  pub risk_eta : Float

pub data StageError : Type 0 where
  bad_name duplicate_model empty_snapshot unexpected_scores unknown_status bad_score : StageError
  no_blend_id bad_first_weight bad_group_size bad_calibration bad_param bad_eta no_models bad_weight
        bad_sum :
      StageError

abbrev pub one : ℕ
one = 10 ^ 9

-- Finite and from 0 to 1.
abbrev pub in_unit : Float → Bool
in_unit (finite n) = leb n one
in_unit (negative _) = false
in_unit nan = false
in_unit infinite = false

abbrev pub positive_unit : Float → Bool
positive_unit (finite n) = ltb 0 n && leb n one
positive_unit (negative _) = false
positive_unit nan = false
positive_unit infinite = false

abbrev pub name_char : ℕ → Bool
name_char c =
    leb b'a' c && leb c b'z' || leb b'0' c && leb c b'9' || c == b'.' || c == b'_' || c == b'-'

abbrev pub dotted_twice : Text → Bool
dotted_twice [] = false
dotted_twice (c ∷ []) = false
dotted_twice (c ∷ d ∷ cs) = c == b'.' && d == b'.' || dotted_twice (d ∷ cs)

abbrev pub name_chars : Text → Bool
name_chars [] = true
name_chars (c ∷ cs) = name_char c && name_chars cs

unfoldable pub valid_model_name : Text → Bool
valid_model_name [] = false
valid_model_name (c ∷ cs) =
    leb (length (c ∷ cs)) 64
    && leb b'a' c
    && leb c b'z'
    && name_chars (c ∷ cs)
    && not (dotted_twice (c ∷ cs))

abbrev pub scores_fit : Map ModelScore → Bool
scores_fit [] = true
scores_fit ((code, s) ∷ m) =
    not (all_blank code) && in_unit s.adjacent15 && in_unit s.full15_top12 && scores_fit m

abbrev pub seen_in : Text → List Text → Bool
seen_in name seen = any (λ s. text_eq s name) seen

-- The check of one input's snapshot.
abbrev pub check_snapshot : ModelInput → Option StageError
check_snapshot i =
    if text_eq i.status (codes "ok")
    then first_error (unless (not (is_empty i.scores)) empty_snapshot)
        (unless (scores_fit i.scores) bad_score)
    else if text_eq i.status (codes "missing") || text_eq i.status (codes "invalid")
    then unless (is_empty i.scores) unexpected_scores
    else some unknown_status

unfoldable pub check_inputs : List Text → List ModelInput → Option StageError
unfolding valid_model_name text_eq
check_inputs seen [] = none
check_inputs seen (i ∷ is) = first_error (unless (valid_model_name i.name) bad_name) (
    first_error (unless (not (seen_in i.name seen)) duplicate_model)
      (first_error (check_snapshot i) (check_inputs (i.name ∷ seen) is)))

unfoldable pub validate_model_inputs : List ModelInput → Option StageError
unfolding check_inputs
validate_model_inputs inputs = check_inputs [] inputs

abbrev pub weight_of : Float → ℕ
weight_of (finite n) = n
weight_of (negative _) = 0
weight_of nan = 0
weight_of infinite = 0

unfoldable pub check_weights : List Text → ℕ → List BlendWeight → Option StageError
unfolding valid_model_name text_eq
check_weights seen total [] = unless (leb total (one + 1) && leb one (total + 1)) bad_sum
check_weights seen total (m ∷ ms) = first_error (unless (valid_model_name m.name) bad_name) (
    first_error (unless (not (seen_in m.name seen)) duplicate_model) (
      first_error (unless (positive_unit m.weight) bad_weight)
        (check_weights (m.name ∷ seen) (total + weight_of m.weight) ms)))

unfoldable pub validate_blend : BlendPlan → Option StageError
unfolding check_weights text_eq
validate_blend p = first_error (unless (not (all_blank p.id)) no_blend_id) (
    first_error (unless (in_unit p.first_stage_weight) bad_first_weight) (
      first_error
        (unless (not (is_neg p.group_size) && not (ltb_ℤ (pos 100) p.group_size)) bad_group_size)
        (first_error
          (unless
            (is_empty p.calibration
              || text_eq p.calibration (codes "none")
              || text_eq p.calibration (codes "local"))
            bad_calibration)
          (first_error (unless (in_unit p.calibration_param) bad_param) (
            first_error (unless (in_unit p.risk_eta) bad_eta) (
              first_error (unless (not (is_empty p.models)) no_models)
                (check_weights [] (weight_of p.first_stage_weight) p.models)))))))
