-- ===== src/Market/Statuses.antt =====
-- internal/market/sources.go: `mergeStatusWindows`, which merges what the status sources say of each
-- day. The code and the range of the window are passed on unchanged, and the merged rows carry the time
-- of the merge: both are left out. A state that is neither traded nor suspended is `unknown`.
pub mod Agreement
use mathlib.Core.List.{map}
use job_time_stock_watcher.Base.{
  ℕ, Bool, true, false, not, ◌||◌, List, [], ◌∷◌, ◌++◌, Option, none, some, Text, codes, text_eq,
  text_ltb, Map, lookup, insert, any, if◌then◌else◌, sort_by,
}

pub data SessionState : Type 0 where
  traded suspended unknown : SessionState

pub record SessionStatus : Type 0 where
  pub date : Text
  pub state : SessionState

pub record StatusAnswer : Type 0 where
  pub name : Text
  pub statuses : List SessionStatus
  pub full : Bool

-- The text that the source collects in `detail`.
pub data Claimed : Type 0 where
  nothing claims_traded claims_suspended : Claimed

pub record Tally : Type 0 where
  pub conflict : Bool
  pub detail : Claimed

pub record Claim : Type 0 where
  pub sources : List Text
  pub tally : Tally

abbrev pub fresh_tally : Tally
fresh_tally = record { conflict = false; detail = nothing }

-- One answer for a day.
unfoldable pub count_state : Tally → SessionState → Tally
count_state t traded = record {
  conflict = t.conflict || elim (t.detail) [ claims_suspended ↦ true | _ ↦ false ];
  detail = claims_traded;
}
count_state t suspended = record {
  conflict = t.conflict || elim (t.detail) [ claims_traded ↦ true | _ ↦ false ];
  detail = elim (t.detail) [
    | nothing ↦ claims_suspended
    | claims_traded ↦ claims_traded
    | claims_suspended ↦ claims_suspended
  ];
}
count_state t unknown = record t { conflict = true }

abbrev pub add_name : Text → List Text → List Text
add_name name names = if any (λ n. text_eq n name) names then names else name ∷ names

abbrev pub tally_of : Option Claim → Tally
tally_of none = fresh_tally
tally_of (some c) = c.tally

abbrev pub sources_of : Option Claim → List Text
sources_of none = []
sources_of (some c) = c.sources

unfoldable pub add_status : Text → SessionStatus → Map Claim → Map Claim
unfolding count_state
add_status name s m =
    insert (s.date)
      (record {
        sources = add_name name (sources_of (lookup (s.date) m));
        tally = count_state (tally_of (lookup (s.date) m)) s.state;
      })
      m

unfoldable pub add_statuses : Text → List SessionStatus → Map Claim → Map Claim
unfolding add_status
add_statuses name [] m = m
add_statuses name (s ∷ ss) m = add_statuses name ss (add_status name s m)

unfoldable pub add_answers : List StatusAnswer → Map Claim → Map Claim
unfolding add_statuses
add_answers [] m = m
add_answers (a ∷ answers) m = add_answers answers (add_statuses a.name a.statuses m)

unfoldable pub verdict : Tally → SessionState
verdict t = if t.conflict then unknown else elim (t.detail) [
  | claims_traded ↦ traded
  | claims_suspended ↦ suspended
  | nothing ↦ unknown
]

abbrev pub detail_text : Tally → Text
detail_text t =
    if t.conflict
    then codes "status_conflict"
    else elim (t.detail) [ claims_traded ↦ codes "bar_missing" | _ ↦ [] ]

abbrev pub join_names : List Text → Text
join_names [] = []
join_names (n ∷ []) = n
join_names (n ∷ m ∷ names) = n ++ (codes "+" ++ join_names (m ∷ names))

pub record MergedStatus : Type 0 where
  pub date : Text
  pub state : SessionState
  pub source : Text
  pub detail : Text

abbrev pub merged_row : Text × Claim → MergedStatus
merged_row (date, c) = record {
  date = date;
  state = verdict c.tally;
  source = join_names (sort_by text_ltb c.sources);
  detail = detail_text c.tally;
}

abbrev pub earlier : Text × Claim → Text × Claim → Bool
earlier a b = text_ltb a.0 b.0

abbrev pub answer_names : List StatusAnswer → List Text → List Text
answer_names [] names = names
answer_names (a ∷ answers) names = answer_names answers (add_name a.name names)

pub record MergedWindow : Type 0 where
  pub source : Text
  pub full : Bool
  pub statuses : List MergedStatus

unfoldable pub merge_windows : List StatusAnswer → MergedWindow
unfolding add_answers verdict
merge_windows answers = record {
  source = join_names (sort_by text_ltb (answer_names answers []));
  full = any (λ a. a.full) answers;
  statuses = map merged_row (sort_by earlier (add_answers answers []));
}
