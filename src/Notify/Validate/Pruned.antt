-- ===== src/Notify/Validate/Pruned.antt =====
-- `Prune` keeps a ledger valid: it never removes an event that an open event depends on.
use job_time_stock_watcher.Base.{
  ℕ, ◌||◌, Bool, true, false, none, some, [], ◌∷◌, Text, Map, ◌≡◌, inl, inr, refl, arith, lookup,
  delete, In, In-All, All-In, In-lookup, Option-cases, Bool-cases, if◌then◌else◌, text_eq,
}
use job_time_stock_watcher.Notify.{Event, Ledger}
use job_time_stock_watcher.Notify.States.{IsLedger}
use job_time_stock_watcher.Notify.Upkeep.{prune, prune_loop, removable}
use job_time_stock_watcher.Notify.Upkeep.Pruning.{prune_cases, prune-none}
use job_time_stock_watcher.Notify.Validate.{check_dependency, check_event, validate}
use job_time_stock_watcher.Notify.Validate.Carried.{check_events→Checked, Checked→check_events}

In-delete : (p : Text × Event) (k : Text) (m : Map Event) → In p (delete k m) → In p m
unfolding delete
In-delete p k [] h = h
In-delete p k ((i, e) ∷ m) h = elim (Bool-cases (text_eq i k)) [
  | inl q ↦ inr (In-delete p k m (rw q at h))
  | inr q ↦
      let kept : In p ((i, e) ∷ delete k m) = rw q at h in
      elim kept [ inl r ↦ inl r | inr r ↦ inr (In-delete p k m r) ]
]

In-dropped :
    (p : Text × Event) (k : Text) (m : Map Event) (drop : Bool)
    → In p (if drop then delete k m else m)
    → In p m
In-dropped p k m true h = In-delete p k m h
In-dropped p k m false h = h

In-prune_loop :
    (p : Text × Event) (now keep_for : ℕ) (es m : Map Event) (changed : Bool)
    → In p (prune_loop now keep_for es m changed).0
    → In p m
unfolding prune_loop
In-prune_loop p now keep_for [] m changed h = h
In-prune_loop p now keep_for ((i, e) ∷ es) m changed h =
    let drop = removable now keep_for m i e in
    In-dropped p i m drop
      (In-prune_loop p now keep_for es (if drop then delete i m else m) (drop || changed) h)

prune-check_dependency :
    (l : Ledger) (now keep_for : ℕ) (id : Text) (e : Event)
    → IsLedger l
    → lookup id l.events ≡ some e
    → check_dependency l.events e ≡ none
    → check_dependency (prune l now keep_for).0.events e ≡ none
unfolding check_dependency
prune-check_dependency l now keep_for id e wf q h =
    elim (Option-cases (lookup e.depends_on l.events)) [
      | inl n ↦ ground (arith, n, h, prune-none l now keep_for e.depends_on wf)
      | inr (d, r) ↦ elim (prune_cases l now keep_for e.depends_on d wf r) [
        | inl k ↦ ground (arith, r, k, h)
        | inr (k, c) ↦ ground (arith, r, k, c.unneeded id e q refl)
      ]
    ]

prune-check_event :
    (l : Ledger) (now keep_for : ℕ) (id : Text) (e : Event)
    → IsLedger l
    → lookup id l.events ≡ some e
    → check_event l.events id e ≡ none
    → check_event (prune l now keep_for).0.events id e ≡ none
unfolding check_event
prune-check_event l now keep_for id e wf q h =
    ground (arith, h, prune-check_dependency l now keep_for id e wf q)

-- `Prune` keeps a valid ledger valid, at any time and for any retention: an event that an open
-- event depends on is never removed.
pub prune_keeps_valid :
    (l : Ledger) (now keep_for : ℕ)
    → IsLedger l
    → validate l ≡ none
    → validate (prune l now keep_for).0 ≡ none
unfolding validate prune
prune_keeps_valid l now keep_for wf h =
    let checked = check_events→Checked l.events l.events (ground (arith, h)) in
    let events = (prune l now keep_for).0.events in
    let again =
      In-All (λ (p : Text × Event). check_event events p.0 p.1 ≡ none) events
        λ p i.
          let before = In-prune_loop p now keep_for l.events l.events false i in
          prune-check_event l now keep_for p.0 p.1 wf
            (In-lookup p.0 p.1 l.events wf.events_map before)
            (All-In (λ (q : Text × Event). check_event l.events q.0 q.1 ≡ none) p l.events checked
              before) in
    ground (arith, h, Checked→check_events events events again)
