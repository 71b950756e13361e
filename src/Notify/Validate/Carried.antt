-- ===== src/Notify/Validate/Carried.antt =====
-- When a ledger whose events were rewritten one by one still passes `Validate`.
use job_time_stock_watcher.Base.{
  true, false, none, some, [], ◌∷◌, Text, Map, ◌≡◌, inl, inr, refl, arith, lookup, map_values,
  lookup-map_values, is_empty, Option-cases, Bool-cases, All, insert, lookup-insert, text_eq,
  text_eq_iff, All-In, lookup-In, In,
}
use job_time_stock_watcher.Notify.{Event, Ledger}
use job_time_stock_watcher.Notify.States.{channel_map, terminal_event}
use job_time_stock_watcher.Notify.Validate.{
  check_channels, check_dependency, check_event, check_events, validate,
}

-- `e'` is `e` with other channel states: the fields that `Validate` reads are kept, there are
-- channels as before, their states are sound if they were, and, where the event names a dependency
-- that `m` lacks, closed if they all were.
pub record Carries (m : Map Event) (e e' : Event) : Type 0 where
  pub dated : e'.as_of ≡ e.as_of
  pub expiring : e'.expires_at ≡ e.expires_at
  pub messaged : e'.message ≡ e.message
  pub ordered : e'.sequence ≡ e.sequence
  pub dependent : e'.depends_on ≡ e.depends_on
  pub sized : is_empty (channel_map e') ≡ is_empty (channel_map e)
  pub sound : check_channels (channel_map e) ≡ none → check_channels (channel_map e') ≡ none
  pub still :
      is_empty e.depends_on ≡ false
      → lookup e.depends_on m ≡ none
      → terminal_event e ≡ true
      → terminal_event e' ≡ true

pub Carries-refl : (m : Map Event) (e : Event) → Carries m e e
Carries-refl m e = record {
  dated = refl;
  expiring = refl;
  messaged = refl;
  ordered = refl;
  dependent = refl;
  sized = refl;
  sound = λ h. h;
  still = λ d n h. h;
}

-- The event under a key of `m'`, if any, has the sequence of the one under it in `m`.
pub record Agrees (m m' : Map Event) (k : Text) : Type 0 where
  pub missing : lookup k m ≡ none → lookup k m' ≡ none
  pub found :
      (d : Event)
      → lookup k m ≡ some d
      → (d' : Event) × (lookup k m' ≡ some d') × (d'.sequence ≡ d.sequence)

check_dependency-carry :
    (m m' : Map Event) (e e' : Event)
    → Carries m e e'
    → Agrees m m' e.depends_on
    → check_dependency m e ≡ none
    → check_dependency m' e' ≡ none
unfolding check_dependency
check_dependency-carry m m' e e' c a h = elim (Option-cases (lookup e.depends_on m)) [
  | inl n ↦ ground (arith, n, a.missing n, c.dependent, c.still, h)
  | inr (d, q) ↦
      let (d', q', s) = a.found d q in ground (arith, q, q', s, c.dependent, c.ordered, h)
]

pub check_event-carry :
    (m m' : Map Event) (id : Text) (e e' : Event)
    → Carries m e e'
    → Agrees m m' e.depends_on
    → check_event m id e ≡ none
    → check_event m' id e' ≡ none
unfolding check_event
check_event-carry m m' id e e' c a h = ground (
  arith,
  h,
  check_dependency-carry m m' e e' c a,
  c.sound,
  c.dated,
  c.expiring,
  c.messaged,
  c.ordered,
  c.dependent,
  c.sized,
)

abbrev pub Checked : Map Event → Map Event → Type 0
Checked m es = All (λ (p : Text × Event). check_event m p.0 p.1 ≡ none) es

pub check_events→Checked : (m es : Map Event) → check_events m es ≡ none → Checked m es
unfolding check_events
check_events→Checked m [] h = tt
check_events→Checked m ((id, e) ∷ es) h =
    (ground (arith, h), check_events→Checked m es (ground (arith, h)))

pub Checked→check_events : (m es : Map Event) → Checked m es → check_events m es ≡ none
unfolding check_events
Checked→check_events m [] h = refl
Checked→check_events m ((id, e) ∷ es) h = ground (arith, h.0, Checked→check_events m es h.1)

module _ (f : Text → Event → Event) (m : Map Event)
    (c : (id : Text) (e : Event) → In (id, e) m → Carries m e (f id e)) where
  map_values-Agrees : (k : Text) → Agrees m (map_values f m) k
  map_values-Agrees k = record {
    missing = λ n. ground (arith, n, lookup-map_values f k m);
    found = λ d q.
        (f k d, ground (arith, q, lookup-map_values f k m), (c k d (lookup-In k d m q)).ordered);
  }

  Checked-map_values :
      (es : Map Event)
      → ((p : Text × Event) → In p es → In p m)
      → Checked m es
      → Checked (map_values f m) (map_values f es)
  unfolding map_values
  Checked-map_values [] sub h = tt
  Checked-map_values ((id, e) ∷ es) sub h = (
    check_event-carry m (map_values f m) id e (f id e) (c id e (sub (id, e) (inl refl)))
        (map_values-Agrees e.depends_on) h.0,
    Checked-map_values es (λ p q. sub p (inr q)) h.1,
  )

-- A rewrite of every event that carries each keeps the ledger valid.
pub validate-map_values :
    (f : Text → Event → Event) (l : Ledger)
    → ((id : Text) (e : Event) → In (id, e) l.events → Carries l.events e (f id e))
    → validate l ≡ none
    → validate (record l { events = map_values f l.events }) ≡ none
unfolding validate
validate-map_values f l c h =
    let checked = check_events→Checked l.events l.events (ground (arith, h)) in
    let again = Checked-map_values f l.events c l.events (λ p q. q) checked in
    ground (arith, h, Checked→check_events _ _ again)

pub Checked-agree :
    (m m' es : Map Event) → ((k : Text) → Agrees m m' k) → Checked m es → Checked m' es
Checked-agree m m' [] a h = tt
Checked-agree m m' ((id, e) ∷ es) a h = (
  check_event-carry m m' id e e (Carries-refl m e) (a e.depends_on) h.0,
  Checked-agree m m' es a h.1,
)

module _ (m : Map Event) (id : Text) (e e' : Event) (at : lookup id m ≡ some e)
    (c : Carries m e e') where
  insert-Agrees : (k : Text) → Agrees m (insert id e' m) k
  insert-Agrees k = elim (Bool-cases (text_eq id k)) [
    | inl t ↦ record {
      missing = λ n. ground (arith, n, at, t, text_eq_iff id k);
      found = λ d q. (
        e',
        ground (arith, t, lookup-insert id k e' m),
        ground (arith, at, q, c.ordered, t, text_eq_iff id k),
      );
    }
    | inr t ↦ record {
      missing = λ n. ground (arith, n, t, lookup-insert id k e' m);
      found = λ d q. (d, ground (arith, q, t, lookup-insert id k e' m), refl);
    }
  ]

  Checked-insert :
      (es : Map Event)
      → check_event m id e ≡ none
      → Checked m es
      → Checked (insert id e' m) (insert id e' es)
  unfolding insert
  Checked-insert [] k h =
      (check_event-carry m (insert id e' m) id e e' c (insert-Agrees e.depends_on) k, tt)
  Checked-insert ((j, f) ∷ es) k h = elim (Bool-cases (text_eq j id)) [
    | inl t ↦
        let changed =
          check_event-carry m (insert id e' m) id e e' c (insert-Agrees e.depends_on) k in
        rw t (
          rw ((text_eq_iff j id).0 t) changed,
          Checked-agree m (insert id e' m) es insert-Agrees h.1,
        )
    | inr t ↦ rw t (
      check_event-carry m (insert id e' m) j f f (Carries-refl m f) (insert-Agrees f.depends_on)
          h.0,
      Checked-insert es k h.1,
    )
  ]

-- So does a rewrite of one event.
pub validate-insert :
    (l : Ledger) (id : Text) (e e' : Event)
    → lookup id l.events ≡ some e
    → Carries l.events e e'
    → validate l ≡ none
    → validate (record l { events = insert id e' l.events }) ≡ none
unfolding validate
validate-insert l id e e' q c h =
    let checked = check_events→Checked l.events l.events (ground (arith, h)) in
    let own =
      All-In (λ (p : Text × Event). check_event l.events p.0 p.1 ≡ none) (id, e) l.events checked
        (lookup-In id e l.events q) in
    ground (
      arith,
      h,
      Checked→check_events _ _ (Checked-insert l.events id e e' q c l.events own checked),
    )
