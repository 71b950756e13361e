-- ===== src/Calendar/History/Dataset/Naming.antt =====
-- The source of a frozen history: the joined names of the windows are a source again.
use job_time_stock_watcher.Base.{
  ℕ, ◌≤◌, ltb→lt, true, false, ◌||◌, List, [], ◌∷◌, ◌++◌, Text, text_eq, text_ltb, any, is_empty,
  ltb, if◌then◌else◌, insert_by, sort_by, In, In-sort_by, All, All-In, In-All, ◌≡◌, refl, sym, ap,
  ◌∙◌, subst, inl, inr, Bool-cases, arith, starts_blank, ends_blank, backwards,
}
use job_time_stock_watcher.Calendar.History.{is_source}
use job_time_stock_watcher.Calendar.History.Coverage.{Window}
use job_time_stock_watcher.Calendar.History.Dataset.{is_apart, sources_in, latest_fetch, join_names}

starts_plus :
    (s r : Text) → is_empty s ≡ false → starts_blank s ≡ false → starts_blank (s ++ 43 ∷ r) ≡ false
starts_plus [] r h k = cc
starts_plus (a ∷ []) [] h k = ground (arith, k)
starts_plus (a ∷ []) (b ∷ r) h k = ground (arith, k)
starts_plus (a ∷ b ∷ []) r h k = ground (arith, k)
starts_plus (a ∷ b ∷ c ∷ s) r h k = k

ends_plus :
    (s r : Text) → is_empty s ≡ false → ends_blank s ≡ false → ends_blank (s ++ 43 ∷ r) ≡ false
ends_plus [] r h k = cc
ends_plus (a ∷ []) [] h k = ground (arith, k)
ends_plus (a ∷ []) (b ∷ r) h k = ground (arith, k)
ends_plus (a ∷ b ∷ []) r h k = ground (arith, k)
ends_plus (a ∷ b ∷ c ∷ s) r h k = k

append_assoc : (r s t : Text) → (r ++ s) ++ t ≡ r ++ (s ++ t)
append_assoc [] s t = refl
append_assoc (a ∷ r) s t = ap (λ u. a ∷ u) (append_assoc r s t)

append_nil : (s : Text) → s ++ [] ≡ s
append_nil [] = refl
append_nil (a ∷ s) = ap (λ u. a ∷ u) (append_nil s)

backwards-append : (s t : Text) → backwards (s ++ t) ≡ backwards t ++ backwards s
backwards-append [] t = sym (append_nil (backwards t))
backwards-append (a ∷ s) t =
    ap (λ u. u ++ (a ∷ [])) (backwards-append s t)
    ∙ append_assoc (backwards t) (backwards s) (a ∷ [])

append_full : (s t : Text) → is_empty t ≡ false → is_empty (s ++ t) ≡ false
append_full [] t h = h
append_full (a ∷ s) t h = refl

backwards_full : (s : Text) → is_empty s ≡ false → is_empty (backwards s) ≡ false
backwards_full [] h = cc
backwards_full (a ∷ s) h = append_full (backwards s) (a ∷ []) refl

plus-IsSource :
    (s r : Text) → is_source s ≡ true → is_source r ≡ true → is_source (s ++ 43 ∷ r) ≡ true
plus-IsSource s r h k =
    let full_s : is_empty s ≡ false = ground (arith, h) in
    let full_r : is_empty r ≡ false = ground (arith, k) in
    let start = starts_plus s r full_s (ground (arith, h)) in
    let end = ends_plus (backwards r) (backwards s) (backwards_full r full_r) (ground (arith, k)) in
    let order : backwards (s ++ 43 ∷ r) ≡ backwards r ++ 43 ∷ backwards s =
      backwards-append s (43 ∷ r) ∙ append_assoc (backwards r) (43 ∷ []) (backwards s) in
    let closing : ends_blank (backwards (s ++ 43 ∷ r)) ≡ false = ap ends_blank order ∙ end in
    let full : is_empty (s ++ 43 ∷ r) ≡ false = append_full s (43 ∷ r) refl in
    ground (arith, start, closing, full)

pub join_names-IsSource :
    (names : List Text)
    → is_empty names ≡ false
    → All (λ s. is_source s ≡ true) names
    → is_source (join_names names) ≡ true
join_names-IsSource [] h k = cc
join_names-IsSource (s ∷ []) h k = k.0
join_names-IsSource (s ∷ t ∷ ss) h k =
    plus-IsSource s (join_names (t ∷ ss)) k.0 (join_names-IsSource (t ∷ ss) refl k.1)

ltb-le : (a b : ℕ) → ltb a b ≡ false → b ≤ a
ltb-le a b h = ground (arith, h)

module _ (from through : ℕ) where
  -- The next names seen, after a window.
  abbrev next_source : List Text → Window → List Text
  next_source seen w =
      if is_apart from through w || any (λ s. text_eq s w.source) seen
      then seen
      else w.source ∷ seen

  sources_in-IsSource :
      (ws : List Window) (seen : List Text)
      → All (λ w. is_source w.source ≡ true) ws
      → All (λ s. is_source s ≡ true) seen
      → All (λ s. is_source s ≡ true) (sources_in from through seen ws)
  sources_in-IsSource [] seen h k = k
  sources_in-IsSource (w ∷ ws) seen h k =
      elim (Bool-cases (is_apart from through w || any (λ s. text_eq s w.source) seen)) [
        | inl e ↦ rw e (sources_in-IsSource ws seen h.1 k)
        | inr e ↦ rw e (sources_in-IsSource ws (w.source ∷ seen) h.1 (h.0, k))
      ]

  sources_in-full :
      (ws : List Window) (seen : List Text)
      → is_empty seen ≡ false
      → is_empty (sources_in from through seen ws) ≡ false
  sources_in-full [] seen h = h
  sources_in-full (w ∷ ws) seen h =
      elim (Bool-cases (is_apart from through w || any (λ s. text_eq s w.source) seen)) [
        | inl e ↦ rw e (sources_in-full ws seen h)
        | inr e ↦ rw e (sources_in-full ws (w.source ∷ seen) refl)
      ]

  -- A window that meets the range gives a name.
  sources_in-met :
      (ws : List Window) (w : Window)
      → In w ws
      → is_apart from through w ≡ false
      → is_empty (sources_in from through [] ws) ≡ false
  sources_in-met [] w h k = absurd h.1
  sources_in-met (v ∷ vs) w h k = elim (Bool-cases (is_apart from through v)) [
    | inr e ↦ rw e (sources_in-full vs (v.source ∷ []) refl)
    | inl e ↦ elim h [
      | inl p ↦ let impossible : true ≡ false = sym e ∙ ap (is_apart from through) p ∙ k in cc
      | inr q ↦ rw e (sources_in-met vs w q k)
    ]
  ]

  pub latest_fetch-grows :
      (ws : List Window) (latest : ℕ) → latest ≤ latest_fetch from through latest ws
  latest_fetch-grows [] latest = omega arith
  latest_fetch-grows (w ∷ ws) latest = elim (Bool-cases (is_apart from through w)) [
    | inl e ↦ rw e (latest_fetch-grows ws latest)
    | inr e ↦ elim (Bool-cases (ltb latest w.fetched_at)) [
      | inl f ↦
          let rest = latest_fetch-grows ws w.fetched_at in
          rw (e, f) (omega (arith, rest, ltb→lt latest w.fetched_at f))
      | inr f ↦ rw (e, f) (latest_fetch-grows ws latest)
    ]
  ]

  -- The latest fetch is no earlier than that of a window that meets the range.
  pub latest_fetch-met :
      (ws : List Window) (latest : ℕ) (w : Window)
      → In w ws
      → is_apart from through w ≡ false
      → w.fetched_at ≤ latest_fetch from through latest ws
  latest_fetch-met [] latest w h k = absurd h.1
  latest_fetch-met (v ∷ vs) latest w h k = elim (Bool-cases (is_apart from through v)) [
    | inl e ↦ elim h [
      | inl p ↦ let impossible : true ≡ false = sym e ∙ ap (is_apart from through) p ∙ k in cc
      | inr q ↦ rw e (latest_fetch-met vs latest w q k)
    ]
    | inr e ↦ elim (Bool-cases (ltb latest v.fetched_at)) [
      | inl f ↦ elim h [
        | inl p ↦
            rw (e, f)
              (subst (λ u. u.fetched_at ≤ latest_fetch from through v.fetched_at vs) p
                (latest_fetch-grows vs v.fetched_at))
        | inr q ↦ rw (e, f) (latest_fetch-met vs v.fetched_at w q k)
      ]
      | inr f ↦ elim h [
        | inl p ↦
            let rest = latest_fetch-grows vs latest in
            let early = ltb-le latest v.fetched_at f in
            rw (e, f)
              (subst (λ u. u.fetched_at ≤ latest_fetch from through latest vs) p
                (omega (arith, rest, early)))
        | inr q ↦ rw (e, f) (latest_fetch-met vs latest w q k)
      ]
    ]
  ]

insert_full : (a : Text) (xs : List Text) → is_empty (insert_by text_ltb a xs) ≡ false
unfolding insert_by
insert_full a [] = refl
insert_full a (x ∷ xs) = ground arith

sort_full : (xs : List Text) → is_empty xs ≡ false → is_empty (sort_by text_ltb xs) ≡ false
unfolding sort_by
sort_full [] h = cc
sort_full (x ∷ xs) h = insert_full x (sort_by text_ltb xs)

-- The sorted names of a range that a window meets.
pub sorted_sources :
    (from through : ℕ) (ws : List Window) (w : Window)
    → All (λ v. is_source v.source ≡ true) ws
    → In w ws
    → is_apart from through w ≡ false
    → (is_empty (sort_by text_ltb (sources_in from through [] ws)) ≡ false)
      × (is_source (join_names (sort_by text_ltb (sources_in from through [] ws))) ≡ true)
sorted_sources from through ws w h p k =
    let names = sources_in from through [] ws in
    let full = sort_full names (sources_in-met from through ws w p k) in
    let each = sources_in-IsSource from through ws [] h tt in
    (
      full,
      join_names-IsSource (sort_by text_ltb names) full (
          In-All (λ s. is_source s ≡ true) (sort_by text_ltb names)
            (λ s q.
              All-In (λ t. is_source t ≡ true) s names each ((In-sort_by text_ltb s names).0 q))),
    )
