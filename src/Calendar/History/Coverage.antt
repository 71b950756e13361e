-- ===== src/Calendar/History/Coverage.antt =====
-- internal/calendar/history.go: which days of a range a list of windows covers. The days are numbers,
-- so that `nextDay` adds one and `previousDay`, which is only called with a day after another one,
-- takes one away; their texts stay in order up to the year 9999.
pub mod Gaps
pub mod Unions
use job_time_stock_watcher.Base.{
  ℕ, ◌+◌, ◌-◌, Bool, true, false, not, ◌&&◌, ◌||◌, List, [], ◌∷◌, ◌++◌, any, is_empty, ltb, leb,
  ◌==◌, if◌then◌else◌, sort_by, Text,
}

-- What is read of a history that is valid.
pub record Window : Type 0 where
  pub source : Text
  pub from : ℕ
  pub through : ℕ
  pub days : List ℕ
  pub fetched_at : ℕ

pub record Span : Type 0 where
  pub from : ℕ
  pub through : ℕ

pub data CoverageStatus : Type 0 where
  complete partly missing : CoverageStatus

pub record Coverage : Type 0 where
  pub from : ℕ
  pub through : ℕ
  pub status : CoverageStatus
  pub complete : Bool
  pub missing : List Span

-- The part of each window that is in the range.
unfoldable pub clip : ℕ → ℕ → List Window → List Span
clip from through [] = []
clip from through (w ∷ ws) =
    let rest = clip from through ws in
    if ltb w.through from || ltb through w.from
    then rest
    else record {
      from = if ltb w.from from then from else w.from;
      through = if ltb through w.through then through else w.through;
    }
      ∷ rest

abbrev pub span_less : Span → Span → Bool
span_less s t = if s.from == t.from then ltb s.through t.through else ltb s.from t.from

-- The merged spans, from the last one, `m`, on.
unfoldable pub merge_from : Span → List Span → List Span
merge_from m [] = m ∷ []
merge_from m (s ∷ ss) =
    let apart = m ∷ merge_from s ss in
    let longer = merge_from (record m { through = s.through }) ss in
    let same = merge_from m ss in
    if ltb (m.through + 1) s.from then apart else if ltb m.through s.through then longer else same

abbrev pub merge_spans : List Span → List Span
merge_spans [] = []
merge_spans (s ∷ ss) = merge_from s ss

-- The days before a span, from the cursor on.
abbrev pub gap_before : ℕ → ℕ → Span → List Span
gap_before cursor through s =
    if ltb cursor s.from
    then record {
      from = cursor;
      through = if ltb through (s.from - 1) then through else s.from - 1;
    }
      ∷ []
    else []

abbrev pub gap_after : ℕ → ℕ → List Span
gap_after cursor through =
    if leb cursor through then record { from = cursor; through = through } ∷ [] else []

unfoldable pub missing_spans : ℕ → ℕ → List Span → List Span
missing_spans cursor through [] = gap_after cursor through
missing_spans cursor through (s ∷ ss) =
    let skipped = missing_spans cursor through ss in
    let next = missing_spans (s.through + 1) through ss in
    if ltb s.through cursor
    then skipped
    else if ltb through s.from
    then gap_after cursor through
    else if leb through s.through
    then gap_before cursor through s
    else gap_before cursor through s ++ next

abbrev pub merged_spans : List Window → ℕ → ℕ → List Span
merged_spans ws from through = merge_spans (sort_by span_less (clip from through ws))

-- The coverage of valid windows that agree.
unfoldable pub cover : List Window → ℕ → ℕ → Coverage
unfolding missing_spans merge_from clip
cover ws from through =
    let merged = merged_spans ws from through in
    let gaps = missing_spans from through merged in
    record {
      from = from;
      through = through;
      status =
          if is_empty gaps
          then CoverageStatus.complete
          else if is_empty merged
          then CoverageStatus.missing
          else partly;
      complete = is_empty gaps;
      missing = gaps;
    }
