-- ===== src/Market/Statuses/Agreement.antt =====
-- What the merge says of a day.
use mathlib.Core.List.{map}
use job_time_stock_watcher.Base.{
  Bool, true, false, List, [], ◌∷◌, ◌++◌, Text, text_eq, text_eq_iff, Map, lookup, lookup-insert,
  if◌then◌else◌, sort_by, all, In-sort_by, In, IsMap, insert-IsMap, In-lookup, ◌≡◌, refl, sym, ap,
  ◌∙◌, subst, inl, inr, Bool-cases,
}
use job_time_stock_watcher.Market.Statuses.{
  SessionState, traded, suspended, unknown, SessionStatus, StatusAnswer, nothing, claims_traded,
  claims_suspended, Tally, Claim, fresh_tally, count_state, tally_of, add_name, sources_of,
  add_status, add_statuses, add_answers, verdict, MergedStatus, merged_row, earlier, merge_windows,
}

abbrev count_all : Tally → List SessionState → Tally
count_all t [] = t
count_all t (s ∷ ss) = count_all (count_state t s) ss

-- What a list of statuses says of a day.
abbrev states_in : Text → List SessionStatus → List SessionState
states_in date [] = []
states_in date (s ∷ ss) =
    let rest = states_in date ss in if text_eq (s.date) date then s.state ∷ rest else rest

-- All that the answers say of a day, in order.
abbrev pub states_of : Text → List StatusAnswer → List SessionState
states_of date [] = []
states_of date (a ∷ answers) = states_in date a.statuses ++ states_of date answers

count_conflict :
    (t : Tally) (ss : List SessionState) → t.conflict ≡ true → verdict (count_all t ss) ≡ unknown
unfolding verdict count_state
count_conflict t [] h = rw h refl
count_conflict t (traded ∷ ss) h = count_conflict (count_state t traded) ss (rw h refl)
count_conflict t (suspended ∷ ss) h = count_conflict (count_state t suspended) ss (rw h refl)
count_conflict t (unknown ∷ ss) h = count_conflict (count_state t unknown) ss refl

abbrev pub same_state : SessionState → SessionState → Bool
same_state traded traded = true
same_state suspended suspended = true
same_state unknown unknown = true
same_state _ _ = false

-- The state that all of them are, or `unknown`.
abbrev pub agreed : List SessionState → SessionState
agreed [] = unknown
agreed (s ∷ ss) = if all (same_state s) ss then s else unknown

count_traded :
    (ss : List SessionState)
    → verdict (count_all (record { conflict = false; detail = claims_traded }) ss)
      ≡ agreed (traded ∷ ss)
unfolding verdict count_state
count_traded [] = refl
count_traded (traded ∷ ss) = count_traded ss
count_traded (suspended ∷ ss) =
    count_conflict (record { conflict = true; detail = claims_traded }) ss refl
count_traded (unknown ∷ ss) =
    count_conflict (record { conflict = true; detail = claims_traded }) ss refl

count_suspended :
    (ss : List SessionState)
    → verdict (count_all (record { conflict = false; detail = claims_suspended }) ss)
      ≡ agreed (suspended ∷ ss)
unfolding verdict count_state
count_suspended [] = refl
count_suspended (suspended ∷ ss) = count_suspended ss
count_suspended (traded ∷ ss) =
    count_conflict (record { conflict = true; detail = claims_traded }) ss refl
count_suspended (unknown ∷ ss) =
    count_conflict (record { conflict = true; detail = claims_suspended }) ss refl

if_same {ℓ} : {A : Type ℓ} (b : Bool) (x : A) → (if b then x else x) ≡ x
if_same true x = refl
if_same false x = refl

verdict-agreed : (ss : List SessionState) → verdict (count_all fresh_tally ss) ≡ agreed ss
unfolding verdict count_state
verdict-agreed [] = refl
verdict-agreed (traded ∷ ss) = count_traded ss
verdict-agreed (suspended ∷ ss) = count_suspended ss
verdict-agreed (unknown ∷ ss) =
    count_conflict (record { conflict = true; detail = nothing }) ss refl
    ∙ sym (if_same (all (same_state unknown) ss) unknown)

count_all-append :
    (t : Tally) (xs ys : List SessionState) → count_all t (xs ++ ys) ≡ count_all (count_all t xs) ys
count_all-append t [] ys = refl
count_all-append t (x ∷ xs) ys = count_all-append (count_state t x) xs ys

add_statuses-tally :
    (date name : Text) (ss : List SessionStatus) (m : Map Claim)
    → tally_of (lookup date (add_statuses name ss m))
      ≡ count_all (tally_of (lookup date m)) (states_in date ss)
unfolding add_statuses add_status
add_statuses-tally date name [] m = refl
add_statuses-tally date name (s ∷ ss) m =
    add_statuses-tally date name ss (add_status name s m)
    ∙ elim (Bool-cases (text_eq (s.date) date)) [
      | inl e ↦
          let here = (text_eq_iff (s.date) date).0 e in
          rw (lookup-insert, e)
            (ap (λ d. count_all (count_state (tally_of (lookup d m)) s.state) (states_in date ss))
              here)
      | inr e ↦ rw (lookup-insert, e) refl
    ]

add_answers-tally :
    (date : Text) (answers : List StatusAnswer) (m : Map Claim)
    → tally_of (lookup date (add_answers answers m))
      ≡ count_all (tally_of (lookup date m)) (states_of date answers)
unfolding add_answers
add_answers-tally date [] m = refl
add_answers-tally date (a ∷ answers) m =
    add_answers-tally date answers (add_statuses a.name a.statuses m)
    ∙ ap (λ t. count_all t (states_of date answers)) (add_statuses-tally date a.name a.statuses m)
    ∙ sym (
        count_all-append (tally_of (lookup date m)) (states_in date a.statuses)
          (states_of date answers))

add_statuses-IsMap :
    (name : Text) (ss : List SessionStatus) (m : Map Claim)
    → IsMap m
    → IsMap (add_statuses name ss m)
unfolding add_statuses add_status
add_statuses-IsMap name [] m h = h
add_statuses-IsMap name (s ∷ ss) m h = add_statuses-IsMap name ss (add_status name s m) (
    insert-IsMap (s.date)
      (record {
        sources = add_name name (sources_of (lookup (s.date) m));
        tally = count_state (tally_of (lookup (s.date) m)) s.state;
      })
      m h)

add_answers-IsMap :
    (answers : List StatusAnswer) (m : Map Claim) → IsMap m → IsMap (add_answers answers m)
unfolding add_answers
add_answers-IsMap [] m h = h
add_answers-IsMap (a ∷ answers) m h =
    add_answers-IsMap answers (add_statuses a.name a.statuses m)
      (add_statuses-IsMap a.name a.statuses m h)

In-map_from :
    (r : MergedStatus) (xs : List (Text × Claim))
    → In r (map merged_row xs)
    → (x : Text × Claim) × In x xs × (merged_row x ≡ r)
In-map_from r [] h = absurd h.1
In-map_from r (x ∷ xs) h = elim h [
  | inl e ↦ (x, inl refl, e)
  | inr k ↦ let (y, q, e) = In-map_from r xs k in (y, inr q, e)
]

-- Each row of a merged window has the state that all answers for its day agree on, and is unknown if
-- two of them differ.
pub merge_windows-agreed :
    (answers : List StatusAnswer) (r : MergedStatus)
    → In r (merge_windows answers).statuses
    → r.state ≡ agreed (states_of r.date answers)
unfolding merge_windows lookup
merge_windows-agreed answers r h =
    let m = add_answers answers [] in
    let (x, q, e) = In-map_from r (sort_by earlier m) h in
    let at = In-lookup x.0 x.1 m (add_answers-IsMap answers [] tt) ((In-sort_by earlier x m).0 q) in
    let tally : x.1.tally ≡ count_all fresh_tally (states_of x.0 answers) =
      sym (ap tally_of at) ∙ add_answers-tally x.0 answers [] in
    subst (λ y. y.state ≡ agreed (states_of y.date answers)) e
      (ap verdict tally ∙ verdict-agreed (states_of x.0 answers))
