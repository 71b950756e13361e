-- ===== src/Notify/Upkeep/Pruning.antt =====
-- What `Prune` removes.
use job_time_stock_watcher.Base.{
  ℕ, ◌+◌, ◌≤◌, ◌<◌, Bool, true, false, ◌||◌, Option, none, some, [], ◌∷◌, Text, Map, ◌≡◌, ◌↔◌, ◌⊎◌,
  inl, inr, refl, ◌∙◌, ap, arith, lookup, delete, lookup-delete, delete-IsMap, In, In-lookup,
  if◌then◌else◌, Bool-cases, IsMap, All, text_eq, text_eq_iff, In-All, lookup-In,
}
use job_time_stock_watcher.Notify.{Event, Ledger}
use job_time_stock_watcher.Notify.States.{terminal_event, IsLedger}
use job_time_stock_watcher.Notify.Upkeep.{removable, dependency_pending, prune_loop, prune}

-- Removing an event whose channels are all closed leaves no other event's dependents fewer.
dependency_pending-delete :
    (id k : Text) (m : Map Event)
    → ((e : Event) → In (id, e) m → terminal_event e ≡ true)
    → dependency_pending (delete id m) k ≡ dependency_pending m k
unfolding delete
dependency_pending-delete id k [] h = refl
dependency_pending-delete id k ((i, e) ∷ m) h = elim (Bool-cases (text_eq i id)) [
  | inl q ↦
      let closed : terminal_event e ≡ true =
        h e (inl (ap (λ (x : Text). (x, e)) ((text_eq_iff i id).0 q))) in
      ground (arith, q, closed, dependency_pending-delete id k m (λ f p. h f (inr p)))
  | inr q ↦ ground (arith, q, dependency_pending-delete id k m (λ f p. h f (inr p)))
]

-- The entries still to visit are in the map as it stands.
abbrev Stored : Map Event → Map Event → Type 0
Stored m es = All (λ (p : Text × Event). lookup p.0 m ≡ some p.1) es

Stored-delete :
    (id : Text) (m es : Map Event) → lookup id es ≡ none → Stored m es → Stored (delete id m) es
unfolding lookup
Stored-delete id m [] h k = tt
Stored-delete id m ((i, e) ∷ es) h k = (
  ground (arith, h, k.0, lookup-delete id i m, text_eq_iff i id, text_eq_iff id i),
  Stored-delete id m es (ground (arith, h)) k.1,
)

abbrev after : ℕ → ℕ → Map Event → Option Event → Option Event → Text → Option Event
after now keep_for events none found j = found
after now keep_for events (some e) found j =
    if removable now keep_for events j e then none else found

prune_loop-lookup :
    (now keep_for : ℕ) (orig es m : Map Event) (changed : Bool) (j : Text)
    → IsMap m
    → IsMap es
    → Stored m es
    → ((k : Text) → dependency_pending m k ≡ dependency_pending orig k)
    → lookup j (prune_loop now keep_for es m changed).0
      ≡ after now keep_for orig (lookup j es) (lookup j m) j
unfolding prune_loop lookup
prune_loop-lookup now keep_for orig [] m changed j hm he st dep = refl
prune_loop-lookup now keep_for orig ((id, e) ∷ es) m changed j hm he st dep =
    elim (Bool-cases (removable now keep_for m id e)) [
      | inl r ↦
          let only : (f : Event) → In (id, f) m → terminal_event f ≡ true =
            λ f p. ground (arith, r, In-lookup id f m hm p, st.0) in
          let ih =
            prune_loop-lookup now keep_for orig es (delete id m) (true || changed) j
              (delete-IsMap id m hm) he.1 (Stored-delete id m es he.0 st.1)
              (λ k. dependency_pending-delete id k m only ∙ dep k) in
          ground (arith, r, ih, dep id, he.0, lookup-delete id j m, text_eq_iff id j)
      | inr r ↦
          let ih = prune_loop-lookup now keep_for orig es m (false || changed) j hm he.1 st.1 dep in
          ground (arith, r, ih, dep id, he.0, text_eq_iff id j, st.0)
    ]

dependency_pending_none :
    (m : Map Event) (k i : Text) (f : Event)
    → In (i, f) m
    → dependency_pending m k ≡ false
    → f.depends_on ≡ k
    → terminal_event f ≡ true
dependency_pending_none [] k i f p h d = absurd p.1
dependency_pending_none ((j, e) ∷ m) k i f p h d = elim p [
  | inl q ↦ ground (arith, h, d, text_eq_iff f.depends_on k, ap (λ (x : Text × Event). x.1) q)
  | inr q ↦ dependency_pending_none m k i f q (ground (arith, h)) d
]

no_dependency_pending :
    (m : Map Event) (k : Text)
    → ((i : Text) (f : Event) → In (i, f) m → f.depends_on ≡ k → terminal_event f ≡ true)
    → dependency_pending m k ≡ false
no_dependency_pending [] k h = refl
no_dependency_pending ((j, e) ∷ m) k h = ground (
  arith,
  h j e (inl refl),
  text_eq_iff e.depends_on k,
  no_dependency_pending m k (λ i f p. h i f (inr p)),
)

-- What it takes for `Prune` to remove an event: it has expired `keep_for` ago or longer, all of its
-- channels are delivered, blocked or expired, and so are those of every event that depends on it.
pub record CanRemove (l : Ledger) (now keep_for : ℕ) (id : Text) (e : Event) : Type 0 where
  pub stamped : 0 < e.expires_at
  pub old : e.expires_at + keep_for ≤ now
  pub closed : terminal_event e ≡ true
  pub unneeded :
      (i : Text) (f : Event)
      → lookup i l.events ≡ some f
      → f.depends_on ≡ id
      → terminal_event f ≡ true

removable_iff :
    (l : Ledger) (now keep_for : ℕ) (id : Text) (e : Event)
    → IsLedger l
    → (removable now keep_for l.events id e ≡ true) ↔ CanRemove l now keep_for id e
removable_iff l now keep_for id e wf = (
  λ h. record {
    stamped = ground (arith, h);
    old = ground (arith, h);
    closed = ground (arith, h);
    unneeded = λ i f p.
        dependency_pending_none l.events id i f (lookup-In i f l.events p) (ground (arith, h));
  },
  λ c.
      let free =
        no_dependency_pending l.events id
          λ i f p d. c.unneeded i f (In-lookup i f l.events wf.events_map p) d in
      ground (arith, free, c.stamped, c.old, c.closed),
)

Stored-self : (m es : Map Event) → IsMap m → ((p : Text × Event) → In p es → In p m) → Stored m es
Stored-self m es h sub =
    In-All (λ (p : Text × Event). lookup p.0 m ≡ some p.1) es λ p q. In-lookup p.0 p.1 m h (sub p q)

prune-lookup :
    (l : Ledger) (now keep_for : ℕ) (id : Text)
    → IsLedger l
    → lookup id (prune l now keep_for).0.events
      ≡ after now keep_for l.events (lookup id l.events) (lookup id l.events) id
unfolding prune
prune-lookup l now keep_for id wf =
    prune_loop-lookup now keep_for l.events l.events l.events false id wf.events_map wf.events_map
      (Stored-self l.events l.events wf.events_map (λ p q. q)) (λ k. refl)

-- An event is kept, or was removed for cause.
pub prune_cases :
    (l : Ledger) (now keep_for : ℕ) (id : Text) (e : Event)
    → IsLedger l
    → lookup id l.events ≡ some e
    → (lookup id (prune l now keep_for).0.events ≡ some e)
      ⊎ ((lookup id (prune l now keep_for).0.events ≡ none) × CanRemove l now keep_for id e)
prune_cases l now keep_for id e wf h =
    let run = prune-lookup l now keep_for id wf in
    elim (Bool-cases (removable now keep_for l.events id e)) [
      | inl r ↦ inr (ground (arith, run, h, r), (removable_iff l now keep_for id e wf).0 r)
      | inr r ↦ inl (ground (arith, run, h, r))
    ]

-- No event appears.
pub prune-none :
    (l : Ledger) (now keep_for : ℕ) (id : Text)
    → IsLedger l
    → lookup id l.events ≡ none
    → lookup id (prune l now keep_for).0.events ≡ none
prune-none l now keep_for id wf h = ground (arith, h, prune-lookup l now keep_for id wf)

-- In whatever order it visits the events, `Prune` removes exactly the events that the ledger before
-- the call allows to remove, and leaves every other event as it was.
pub prune_removes :
    (l : Ledger) (now keep_for : ℕ) (id : Text) (e : Event)
    → IsLedger l
    → lookup id l.events ≡ some e
    → ((lookup id (prune l now keep_for).0.events ≡ none) ↔ CanRemove l now keep_for id e)
      × ((lookup id (prune l now keep_for).0.events ≡ none)
          ⊎ (lookup id (prune l now keep_for).0.events ≡ some e))
prune_removes l now keep_for id e wf h =
    let run = prune-lookup l now keep_for id wf in
    let cases = prune_cases l now keep_for id e wf h in
    (
      (
        λ gone. elim cases [ inl p ↦ absurd (ground (arith, gone, p)) | inr p ↦ p.1 ],
        λ c. ground (arith, run, h, (removable_iff l now keep_for id e wf).1 c),
      ),
      elim cases [ inl p ↦ inr p | inr p ↦ inl p.0 ],
    )
