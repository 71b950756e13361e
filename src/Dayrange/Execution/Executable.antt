-- ===== src/Dayrange/Execution/Executable.antt =====
-- When a card says that a stock is executable.
use job_time_stock_watcher.Base.{
  ◌≤◌, ◌<◌, Bool, true, false, ◌&&◌, ◌||◌, inl, inr, List, [], ◌∷◌, Option, none, some, Text,
  text_eq, text_eq→≡, Map, lookup, insert, lookup-insert, In, ltb, leb, if◌then◌else◌, ◌≡◌, refl,
  sym, ap, ◌∙◌, subst, Bool-cases, arith,
}
use job_time_stock_watcher.Dayrange.Execution.{
  Forecast, TradePlan, RankedStock, SelectedStock, Recommendation, ExecutionPlan, executable,
  no_plan, no_forecast, high_below_entry, high_below_target, not_formal, low_below_stop, entry_of,
  with_plan, ranked_plans, selected_plan, has_plan, is_live, selected_entry, selected_plans,
  execution_plans, is_forecast, is_plan, compare_plan, execution_status,
}

-- The selection is live, and the stock is one of those selected.
pub record IsRecommended (r : Recommendation) (code : Text) : Type 0 where
  pub live : is_live r ≡ true
  pub stock : SelectedStock
  pub selected : In stock r.selected
  pub same : stock.code ≡ code

abbrev FormalFrom : Recommendation → Map ExecutionPlan → Type 0
FormalFrom r plans =
    (code : Text) → (entry_of (lookup code plans)).formal ≡ true → IsRecommended r code

-- An entry that is inserted is from the selection if it is formal only then.
insert-FormalFrom :
    (r : Recommendation) (plans : Map ExecutionPlan) (k : Text) (v : ExecutionPlan)
    → (v.formal ≡ true → IsRecommended r k)
    → FormalFrom r plans
    → FormalFrom r (insert k v plans)
insert-FormalFrom r plans k v new old code f =
    let at = ap (λ o. (entry_of o).formal) (sym (lookup-insert k code v plans)) ∙ f in
    elim (Bool-cases (text_eq k code)) [
      | inl e ↦
          subst (IsRecommended r) (text_eq→≡ k code e) (
            new
              (sym (ap (λ b. (entry_of (if b then some v else lookup code plans)).formal) e) ∙ at))
      | inr e ↦
          old code
            (sym (ap (λ b. (entry_of (if b then some v else lookup code plans)).formal) e) ∙ at)
    ]

with_plan-FormalFrom :
    (r : Recommendation) (plans : Map ExecutionPlan) (code : Text) (p : Option TradePlan)
    → FormalFrom r plans
    → FormalFrom r (with_plan plans code p)
with_plan-FormalFrom r plans code none h = h
with_plan-FormalFrom r plans code (some p) h =
    insert-FormalFrom r plans code (record { plan = some p; formal = false })
      (λ f. let impossible : false ≡ true = f in cc) h

ranked_plans-FormalFrom :
    (r : Recommendation) (plans : Map ExecutionPlan) (cs : List RankedStock)
    → FormalFrom r plans
    → FormalFrom r (ranked_plans plans cs)
unfolding ranked_plans
ranked_plans-FormalFrom r plans [] h = h
ranked_plans-FormalFrom r plans (c ∷ cs) h =
    ranked_plans-FormalFrom r (with_plan plans c.code c.plan) cs
      (with_plan-FormalFrom r plans c.code c.plan h)

live_of : (a b c : Bool) → a ≡ false → (a || b && c) ≡ true → c ≡ true
live_of a b c h k = ground (arith, h, k)

selected_plans-FormalFrom :
    (r : Recommendation) (plans : Map ExecutionPlan) (cs : List SelectedStock)
    → ((c : SelectedStock) → In c cs → In c r.selected)
    → FormalFrom r plans
    → FormalFrom r (selected_plans r plans cs)
unfolding selected_plans
selected_plans-FormalFrom r plans [] within h = h
selected_plans-FormalFrom r plans (c ∷ cs) within h =
    let before = entry_of (lookup c.code plans) in
    let plan = selected_plan c.ranking before.plan in
    let new : (before.formal || has_plan plan && is_live r) ≡ true → IsRecommended r c.code = λ f.
      elim (Bool-cases before.formal) [
        | inl e ↦ h c.code e
        | inr e ↦ record {
          live = live_of before.formal (has_plan plan) (is_live r) e f;
          stock = c;
          selected = within c (inl refl);
          same = refl;
        }
      ] in
    selected_plans-FormalFrom r (insert c.code (selected_entry r c before) plans) cs
      (λ d p. within d (inr p)) (insert-FormalFrom r plans c.code (selected_entry r c before) new h)

plans-FormalFrom : (r : Recommendation) → FormalFrom r (execution_plans r)
unfolding execution_plans lookup
plans-FormalFrom r =
    selected_plans-FormalFrom r (ranked_plans [] r.ranking) r.selected (λ c p. p)
      (ranked_plans-FormalFrom r [] r.ranking (λ code f. let impossible : false ≡ true = f in cc))

-- The forecast reaches the plan's prices.
pub record IsCovered (f : Forecast) (p : TradePlan) : Type 0 where
  pub above_entry : p.entry_price < f.point_high
  pub reaches_target : p.take_profit ≤ f.point_high
  pub above_stop : p.stop_price ≤ f.point_low

compare_plan-IsCovered :
    (f : Forecast) (p : TradePlan) (formal : Bool)
    → compare_plan f p formal ≡ executable
    → IsCovered f p × (formal ≡ true)
compare_plan-IsCovered f p formal h = elim (Bool-cases (leb f.point_high p.entry_price)) [
  | inl a ↦ let impossible : high_below_entry ≡ executable = sym (rw a refl) ∙ h in cc
  | inr a ↦ elim (Bool-cases (ltb f.point_high p.take_profit)) [
    | inl b ↦ let impossible : high_below_target ≡ executable = sym (rw (a, b) refl) ∙ h in cc
    | inr b ↦ elim (Bool-cases formal) [
      | inr c ↦ let impossible : not_formal ≡ executable = sym (rw (a, b, c) refl) ∙ h in cc
      | inl c ↦ elim (Bool-cases (ltb f.point_low p.stop_price)) [
        | inl d ↦
            let impossible : low_below_stop ≡ executable = sym (rw (a, b, c, d) refl) ∙ h in cc
        | inr d ↦ (
          record {
            above_entry = ground (arith, a);
            reaches_target = ground (arith, b);
            above_stop = ground (arith, d);
          },
          c,
        )
      ]
    ]
  ]
]

-- A forecast and a plan, of positive prices, of which the forecast covers the plan.
pub record IsExecutable (o : Option Forecast) (plan : Option TradePlan) : Type 0 where
  pub forecast : Forecast
  pub given : o ≡ some forecast
  pub positive : is_forecast forecast ≡ true
  pub planned : TradePlan
  pub chosen : plan ≡ some planned
  pub priced : is_plan planned ≡ true
  pub covered : IsCovered forecast planned

status-IsExecutable :
    (o : Option Forecast) (plan : Option TradePlan) (formal : Bool)
    → execution_status o plan formal ≡ executable
    → IsExecutable o plan × (formal ≡ true)
unfolding execution_status
status-IsExecutable none plan formal h = let impossible : no_forecast ≡ executable = h in cc
status-IsExecutable (some f) none formal h = elim (Bool-cases (is_forecast f)) [
  | inl a ↦ let impossible : no_plan ≡ executable = sym (rw a refl) ∙ h in cc
  | inr a ↦ let impossible : no_forecast ≡ executable = sym (rw a refl) ∙ h in cc
]
status-IsExecutable (some f) (some p) formal h = elim (Bool-cases (is_forecast f)) [
  | inr a ↦ let impossible : no_forecast ≡ executable = sym (rw a refl) ∙ h in cc
  | inl a ↦ elim (Bool-cases (is_plan p)) [
    | inr b ↦ let impossible : no_plan ≡ executable = sym (rw (a, b) refl) ∙ h in cc
    | inl b ↦
        let (covered, c) = compare_plan-IsCovered f p formal (sym (rw (a, b) refl) ∙ h) in
        (
          record {
            forecast = f;
            given = refl;
            positive = a;
            planned = p;
            chosen = refl;
            priced = b;
            covered = covered;
          },
          c,
        )
  ]
]

-- A card says that a stock is executable only if the stock is one of those selected and the selection is
-- enabled and not in its shadow mode, there are a forecast and a plan of positive prices, and the
-- forecast's high is above the plan's entry price and reaches its target, and its low its stop price.
pub execution_status-IsExecutable :
    (r : Recommendation) (o : Option Forecast) (code : Text)
    → execution_status o
        (entry_of (lookup code (execution_plans r))).plan
        (entry_of (lookup code (execution_plans r))).formal
      ≡ executable
    → IsExecutable o (entry_of (lookup code (execution_plans r))).plan × IsRecommended r code
execution_status-IsExecutable r o code h =
    let entry = entry_of (lookup code (execution_plans r)) in
    let (can, formal) = status-IsExecutable o entry.plan entry.formal h in
    (can, plans-FormalFrom r code formal)
